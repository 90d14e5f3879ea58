-- ===== src/Serialize/Coder.antt =====
-- The coder of the steps: serialize.rs in the portable format, as src/runtime/context.rs uses it.
use dbos_transact_rs.Prelude.{String, ◌≡◌, sym, ◌∙◌, ap, arith, some, none, inl, inr}
use dbos_transact_rs.Exec.{ok}
use dbos_transact_rs.Serialize.Codec.{Codec, portable_name}
use dbos_transact_rs.Serialize.Value.{Value}
use dbos_transact_rs.Serialize.Serde.{Serde, Serial, IsReadable, serde}
use dbos_transact_rs.Serialize.Formats.{portable, name, encode_value, decode_value}
use dbos_transact_rs.Serialize.Errors.{
  error_value, payload, serialize_workflow_error, decoded_step_error,
}
use dbos_transact_rs.Serialize.RoundTrip.{Prints, Sum-cases, decode_value-encode_value}
use dbos_transact_rs.Serialize.ErrorRoundTrip.{decoded_step_error-serialize_workflow_error}

ok_injective : {a b : String} → ok a ≡ ok b → a ≡ b
ok_injective p = cc p

-- Every value of the type has a text that gives it back, and every message has one.
pub record IsStorable {T : Type 0} (J : Serde) (C : Serial T) : Type 0 where
  pub prints : (x : T) (v : Value) → C.to_value x ≡ inr v → Prints J v portable
  pub readable : (x : T) (v : Value) → C.to_value x ≡ inr v → IsReadable v
  pub messages : (m : String) → (s : String) × (J.to_string (error_value (payload m none)) ≡ inr s)

module _ {T : Type 0} (J : Serde) (C : Serial T) (h : IsStorable J C) where
  -- What the encoder of a type writes, its decoder reads.
  pub decode_value_of_encoded :
      (x : T) (s : String)
      → encode_value J C x portable ≡ ok s
      → decode_value J C (some s) (some portable_name) ≡ ok x
  unfolding name
  decode_value_of_encoded x s e = elim (Sum-cases (C.to_value x)) [
    | inl (text, failed) ↦ absurd (unfold encode_value serde in ground (arith, e, failed))
    | inr (v, has) ↦
        from
          (decode_value-encode_value J C x portable v has (h.prints x v has) (h.readable x v has))
  ]
    where
      from :
          (r : String) × (encode_value J C x portable ≡ ok r)
            × (decode_value J C (some r) (some portable_name) ≡ ok x)
          → decode_value J C (some s) (some portable_name) ≡ ok x
      from (r, written, read) =
          let same = ok_injective (sym written ∙ e) in
          ap (λ t. decode_value J C (some t) (some portable_name)) (sym same) ∙ read

  abbrev pub value_codec : Codec T
  value_codec = record {
    encode = λ x. encode_value J C x portable;
    decode = decode_value J C;
    encode_error = λ m. serialize_workflow_error J m none portable;
    decode_error = decoded_step_error J;
    decode-encode = decode_value_of_encoded;
    decode_error-encode_error =
        λ m. decoded_step_error-serialize_workflow_error J m (h.messages m).0 (h.messages m).1;
  }
