-- ===== src/Serialize/InputRoundTrip.antt =====
-- Workflow inputs written and read back.
use dbos_transact_rs.Prelude.{
  String, ◌≡◌, refl, arith, ◌≤◌, ◌+◌, false, Bool-cases, some, ◌==◌, eq_iff, inl, inr, ap,
}
use dbos_transact_rs.Exec.{ok}
use dbos_transact_rs.Serialize.Value.{
  Value, element, no_elements, empty_map, canonical, depth, is_exact, insert, get,
}
use dbos_transact_rs.Serialize.Serde.{Serde, Serial, IsReadable, max_depth, serde}
use dbos_transact_rs.Serialize.Formats.{Format, portable, dbos_json, name}
use dbos_transact_rs.Serialize.Input.{
  PortableArgs, args_value, args_of_value, encode_input, decode_input, first_or_null, parse_args,
}
use dbos_transact_rs.Serialize.RoundTrip.{Prints, decode_value-encode_value}

-- The envelope of one argument.
abbrev pub envelope_of : Value → PortableArgs
envelope_of v = record { positional_args = element v no_elements; named_args = empty_map }

-- It nests two levels deeper than the argument.
IsReadable-envelope :
    (v : Value) → IsReadable v → depth v + 2 ≤ max_depth → IsReadable (args_value (envelope_of v))
unfolding args_value is_exact depth
IsReadable-envelope v r h = record { exact = ground (arith, r.exact); shallow = omega (arith, h) }

-- Parsing puts the fields in the order of their keys.
args_of_value-canonical :
    (v : Value)
    → args_of_value (canonical (args_value (envelope_of v))) ≡ inr (envelope_of (canonical v))
unfolding args_value args_of_value canonical insert get
args_of_value-canonical v = refl

-- A map's text is not `null`.
not_null :
    (J : Serde) (a : PortableArgs) (s : String)
    → J.from_str s ≡ inr (canonical (args_value a))
    → (s == "null") ≡ false
unfolding args_value canonical
not_null J a s h = elim (Bool-cases (s == "null")) [
  | inl e ↦
      let same = ap J.from_str ((eq_iff s "null").0 e) in
      absurd (ground (arith, J.from_str_null, h, same))
  | inr e ↦ e
]

module _ (J : Serde) {T : Type 0} (C : Serial T) where
  -- The writer succeeds, on the envelope where the format has one, which must not nest too deep.
  abbrev pub IsWritten : Value → Format → Type 0
  IsWritten v portable = Prints J (args_value (envelope_of v)) portable × (depth v + 2 ≤ max_depth)
  IsWritten v dbos_json = Prints J v dbos_json

  read_envelope :
      (v : Value)
      → IsReadable v
      → depth v + 2 ≤ max_depth
      → (q : Prints J (args_value (envelope_of v)) portable)
      → J.from_str q.0 ≡ inr (canonical (args_value (envelope_of v)))
  read_envelope v r d q =
      J.from_str-to_string (args_value (envelope_of v)) q.0 (IsReadable-envelope v r d) q.1

  -- An input written in either format is read back from the text and the name of the format.
  pub decode_input-encode_input :
      (x : T) (fmt : Format) (v : Value)
      → C.to_value x ≡ inr v
      → IsWritten v fmt
      → IsReadable v
      → (s : String) × (encode_input J C x fmt ≡ ok s)
        × (decode_input J C (some s) (some (name fmt)) ≡ ok x)
  unfolding encode_input decode_input name serde parse_args first_or_null
  decode_input-encode_input x portable v h (q, d) r = (
    q.0,
    rw h (rw q.1),
    rw (not_null J (envelope_of v) q.0 (read_envelope v r d q)) (
        rw (read_envelope v r d q) (
          rw (args_of_value-canonical v)
            (rw (C.to_value-canonical x v h) (rw (C.from_value-to_value x v h))))),
  )
  decode_input-encode_input x dbos_json v h p r = decode_value-encode_value J C x dbos_json v h p r
