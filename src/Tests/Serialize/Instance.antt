-- ===== src/Tests/Serialize/Instance.antt =====
-- The concrete serde_json and base64, and a type with its JSON values.
use Prim.Native.Nat.{ℕ, zero, suc}
use Prim.Native.Char.{code}
use Prim.Native.String.{String}
use dbos_transact_rs.Prelude.{
  ◌≡◌, ◌+◌, ◌≢◌, refl, sym, ◌∙◌, ap, arith, ◌⊎◌, inl, inr, Bool, true, false, List, [], ◌∷◌, eqb,
  if◌then◌else◌,
}
use dbos_transact_rs.Serialize.Value.{
  Value, null, boolean, number, string, array, object, canonical,
}
use dbos_transact_rs.Serialize.Serde.{Serde, Serial, nil_marker}
use dbos_transact_rs.Tests.Serialize.Machine.{
  print, parse_canonical, parse_canonical-print, parse_canonical_null, not_parsed_empty,
  not_parsed_marker,
}

-- A byte is as many letters A as its number, and a B.
write_byte : ℕ → String → String
write_byte zero rest = String.◌∷◌ "B" rest
write_byte (suc n) rest = String.◌∷◌ "A" (write_byte n rest)

unfoldable pub encode_bytes : List ℕ → String
unfolding write_byte
encode_bytes [] = ""
encode_bytes (n ∷ ns) = write_byte n (encode_bytes ns)

abbrev prepend : ℕ → String ⊎ List ℕ → String ⊎ List ℕ
prepend n (inl e) = inl e
prepend n (inr ns) = inr (n ∷ ns)

unfoldable pub decode_bytes : String → ℕ → String ⊎ List ℕ
decode_bytes String.[] n = inr []
decode_bytes (String.◌∷◌ c s) n =
    let one_more = decode_bytes s (suc n) in
    let rest = decode_bytes s 0 in
    if eqb (code c) b'A'
    then one_more
    else if eqb (code c) b'B'
    then prepend n rest
    else inl "invalid symbol"

the_sum : (a : ℕ) → a ≡ a + 0
the_sum a = omega arith

moved : (a n : ℕ) → suc a + n ≡ a + suc n
moved a n = omega arith

decode-write_byte :
    (n acc : ℕ) (rest : String)
    → decode_bytes (write_byte n rest) acc ≡ prepend (acc + n) (decode_bytes rest 0)
unfolding decode_bytes write_byte
decode-write_byte zero acc rest = ap (λ k. prepend k (decode_bytes rest 0)) (the_sum acc)
decode-write_byte (suc n) acc rest =
    decode-write_byte n (suc acc) rest ∙ ap (λ k. prepend k (decode_bytes rest 0)) (moved acc n)

nothing_before : (n : ℕ) → 0 + n ≡ n
nothing_before n = omega arith

pub decode-encode_bytes : (ns : List ℕ) → decode_bytes (encode_bytes ns) 0 ≡ inr ns
unfolding encode_bytes decode_bytes
decode-encode_bytes [] = refl
decode-encode_bytes (n ∷ ns) =
    rw (decode-write_byte n 0 (encode_bytes ns))
      (rw (decode-encode_bytes ns) (ap (λ k. inr (k ∷ ns)) (nothing_before n)))

unfoldable pub to_bytes : Value → String ⊎ List ℕ
to_bytes null = inr (0 ∷ [])
to_bytes (boolean false) = inr (1 ∷ [])
to_bytes (boolean true) = inr (2 ∷ [])
to_bytes _ = inl "unsupported"

unfoldable pub of_bytes : List ℕ → String ⊎ Value
of_bytes (zero ∷ []) = inr null
of_bytes (suc zero ∷ []) = inr (boolean false)
of_bytes (suc (suc zero) ∷ []) = inr (boolean true)
of_bytes _ = inl "expected value"

inr_injective : {b c : List ℕ} → ◌≡◌ {A = String ⊎ List ℕ} (inr b) (inr c) → b ≡ c
inr_injective p = cc p

pub inr_text : {s t : String} → ◌≡◌ {A = String ⊎ String} (inr s) (inr t) → s ≡ t
inr_text p = cc p

pub inr_value : {v w : Value} → ◌≡◌ {A = String ⊎ Value} (inr v) (inr w) → v ≡ w
inr_value p = cc p

pub of_bytes-to_bytes :
    (v : Value) (b : List ℕ) → to_bytes v ≡ inr b → of_bytes b ≡ inr (canonical v)
unfolding to_bytes of_bytes canonical
of_bytes-to_bytes null b h = rw (← inr_injective h)
of_bytes-to_bytes (boolean true) b h = rw (← inr_injective h)
of_bytes-to_bytes (boolean false) b h = rw (← inr_injective h)
of_bytes-to_bytes (number n) b h = absurd (ground (arith, h))
of_bytes-to_bytes (string s) b h = absurd (ground (arith, h))
of_bytes-to_bytes (array xs) b h = absurd (ground (arith, h))
of_bytes-to_bytes (object fs) b h = absurd (ground (arith, h))

marker_error : decode_bytes nil_marker 0 ≡ inl "invalid symbol"
unfolding decode_bytes
marker_error = refl

not_decoded : (e : String) (b : List ℕ) → ◌≢◌ {A = String ⊎ List ℕ} (inl e) (inr b)
not_decoded e b p = absurd (ground (arith, p))

pub nil_marker_rejected : (b : List ℕ) → decode_bytes nil_marker 0 ≢ inr b
nil_marker_rejected b p = not_decoded "invalid symbol" b (sym marker_error ∙ p)

abbrev pub machine : Serde
machine = record {
  to_string = λ v. inr (print v);
  from_str = parse_canonical;
  to_vec = to_bytes;
  from_slice = of_bytes;
  base64_encode = encode_bytes;
  base64_decode = λ s. decode_bytes s 0;
  display_value = print;
  from_str-to_string = λ v s r e. rw (← inr_text e) (parse_canonical-print v);
  from_str_null = parse_canonical_null;
  from_str_empty = not_parsed_empty;
  from_str_nil_marker = not_parsed_marker;
  from_slice-to_vec = λ v b r. of_bytes-to_bytes v b;
  base64_decode-encode = decode-encode_bytes;
  base64_nil_marker = nil_marker_rejected;
}

abbrev pub value_of_bool : Bool → String ⊎ Value
value_of_bool b = inr (boolean b)

abbrev pub bool_of_value : Value → String ⊎ Bool
bool_of_value (boolean b) = inr b
bool_of_value _ = inl "invalid type: expected a boolean"

pub value_of_bool-canonical : (x : Bool) (v : Value) → value_of_bool x ≡ inr v → canonical v ≡ v
unfolding canonical
value_of_bool-canonical x v h = rw (← inr_value h)

pub bool_of_value-value_of_bool :
    (x : Bool) (v : Value) → value_of_bool x ≡ inr v → bool_of_value v ≡ inr x
bool_of_value-value_of_bool x v h = rw (← inr_value h)

abbrev pub bool_serial : Serial Bool
bool_serial = record {
  to_value = value_of_bool;
  from_value = bool_of_value;
  to_value-canonical = value_of_bool-canonical;
  from_value-to_value = bool_of_value-value_of_bool;
}
