-- ===== src/Serialize/RoundTrip.antt =====
-- Round trips of serialize.rs: what is written in a format is read back.
use dbos_transact_rs.Prelude.{
  ℕ, String, ◌≡◌, refl, sym, ap, ◌∙◌, arith, true, Bool-cases, some, List, ◌==◌, eq_iff, ◌⊎◌, inl,
  inr, if◌then◌else◌,
}
use dbos_transact_rs.Exec.{ok}
use dbos_transact_rs.Serialize.Value.{
  Value, null, boolean, number, string, array, object, is_null, canonical,
}
use dbos_transact_rs.Serialize.Serde.{Serde, Serial, IsReadable, nil_marker, serde, base64}
use dbos_transact_rs.Serialize.Formats.{
  Format, portable, dbos_json, name, encode_json_value, decode_to_json, decode_base64_json,
  encode_value, decode_value,
}

pub Sum-cases {ℓ} :
    {A : Type ℓ} (r : String ⊎ A) → ((e : String) × (r ≡ inl e)) ⊎ ((a : A) × (r ≡ inr a))
Sum-cases (inl e) = inl (e, refl)
Sum-cases (inr a) = inr (a, refl)

pub is_null→null : (v : Value) → is_null v ≡ true → v ≡ null
unfolding is_null
is_null→null null h = refl
is_null→null (boolean b) h = absurd (ground (arith, h))
is_null→null (number n) h = absurd (ground (arith, h))
is_null→null (string s) h = absurd (ground (arith, h))
is_null→null (array xs) h = absurd (ground (arith, h))
is_null→null (object fs) h = absurd (ground (arith, h))

module _ (J : Serde) where
  -- The writer of the format succeeds on the value.
  abbrev pub Prints : Value → Format → Type 0
  Prints v portable = (s : String) × (J.to_string v ≡ inr s)
  Prints v dbos_json = (b : List ℕ) × (J.to_vec v ≡ inr b)

  -- The text that is compared with `null` first.
  plain_text :
      (v : Value) (s : String)
      → J.from_str s ≡ inr (canonical v)
      → (if s == "null" then ok null else serde (J.from_str s)) ≡ ok (canonical v)
  unfolding serde
  plain_text v s h = elim (Bool-cases (s == "null")) [
    | inl e ↦
        let is_text = (eq_iff s "null").0 e in
        let same = ap J.from_str is_text in rw e (cc (J.from_str_null, h, same))
    | inr e ↦ rw e (rw h)
  ]

  marked_bytes :
      (v : Value) (b : List ℕ)
      → J.from_slice b ≡ inr (canonical v)
      → (if J.base64_encode b == nil_marker
          then ok null
          else decode_base64_json J (J.base64_encode b))
        ≡ ok (canonical v)
  unfolding serde base64 decode_base64_json
  marked_bytes v b h = elim (Bool-cases (J.base64_encode b == nil_marker)) [
    | inl e ↦
        let marker = (eq_iff (J.base64_encode b) nil_marker).0 e in
        absurd (J.base64_nil_marker b (ap J.base64_decode (sym marker) ∙ J.base64_decode-encode b))
    | inr e ↦ rw e (rw (J.base64_decode-encode b) (rw h))
  ]

  -- A JSON value is read back in the format that it was written in.
  pub decode_to_json-encode_json_value :
      (v : Value) (fmt : Format)
      → Prints v fmt
      → IsReadable v
      → decode_to_json J (some (encode_json_value J v fmt)) (some (name fmt)) ≡ ok (canonical v)
  unfolding decode_to_json encode_json_value name canonical
  decode_to_json-encode_json_value v portable p r = elim (Bool-cases (is_null v)) [
    | inl e ↦ rw e (rw (is_null→null v e))
    | inr e ↦ rw e (rw p.1 (plain_text v p.0 (J.from_str-to_string v p.0 r p.1)))
  ]
  decode_to_json-encode_json_value v dbos_json p r = elim (Bool-cases (is_null v)) [
    | inl e ↦ rw e (rw (is_null→null v e))
    | inr e ↦ rw e (rw p.1 (marked_bytes v p.0 (J.from_slice-to_vec v p.0 r p.1)))
  ]

  module _ {T : Type 0} (C : Serial T) where
    -- A value written in either format is read back from the text and the name of the format.
    pub decode_value-encode_value :
        (x : T) (fmt : Format) (v : Value)
        → C.to_value x ≡ inr v
        → Prints v fmt
        → IsReadable v
        → (s : String) × (encode_value J C x fmt ≡ ok s)
          × (decode_value J C (some s) (some (name fmt)) ≡ ok x)
    unfolding encode_value decode_value serde
    decode_value-encode_value x fmt v h p r = (
      encode_json_value J v fmt,
      rw h,
      rw (decode_to_json-encode_json_value v fmt p r)
          (rw (C.to_value-canonical x v h) (rw (C.from_value-to_value x v h))),
    )
