-- ===== src/Serialize/Input.antt =====
-- serialize.rs: workflow inputs, in the cross-language envelope where the format is portable.
use dbos_transact_rs.Prelude.{
  String, Option, none, some, ◌==◌, ◌⊎◌, inl, inr, column_eq, if◌then◌else◌,
}
use dbos_transact_rs.Exec.{Result, ok}
use dbos_transact_rs.Serialize.Codec.{portable_name}
use dbos_transact_rs.Serialize.Value.{
  Value, null, array, object, Elements, no_elements, element, Entries, empty_map, entry, get,
}
use dbos_transact_rs.Serialize.Serde.{Serde, Serial, serde, ◌|>◌}
use dbos_transact_rs.Serialize.Superjson.{decode_superjson}
use dbos_transact_rs.Serialize.Formats.{
  Format, portable, dbos_json, superjson_name, encode_value, decode_value,
}

pub record PortableArgs : Type 0 where
  pub positional_args : Elements
  pub named_args : Entries

-- The derived `Serialize`, with the renamed fields.
unfoldable pub args_value : PortableArgs → Value
args_value a = object (
    entry "positionalArgs" (array a.positional_args)
      (entry "namedArgs" (object a.named_args) empty_map))

-- `#[serde(default)]`: a missing field is empty; a field of another type is an error.
positional : Option Value → String ⊎ Elements
positional none = inr no_elements
positional (some (array xs)) = inr xs
positional (some _) = inl "invalid type: expected a sequence"

named : Option Value → String ⊎ Entries
named none = inr empty_map
named (some (object fs)) = inr fs
named (some _) = inl "invalid type: expected a map"

both_args : String ⊎ Elements → String ⊎ Entries → String ⊎ PortableArgs
both_args (inl e) r = inl e
both_args (inr xs) (inl e) = inl e
both_args (inr xs) (inr fs) = inr (record { positional_args = xs; named_args = fs })

-- The derived `Deserialize`: a map by its field names, or a sequence by the order of the fields.
unfoldable pub args_of_value : Value → String ⊎ PortableArgs
unfolding both_args positional named
args_of_value (object fs) =
    both_args (positional (get "positionalArgs" fs)) (named (get "namedArgs" fs))
args_of_value (array no_elements) = both_args (positional none) (named none)
args_of_value (array (element xs no_elements)) = both_args (positional (some xs)) (named none)
args_of_value (array (element xs (element fs no_elements))) =
    both_args (positional (some xs)) (named (some fs))
args_of_value (array _) = inl "invalid length: expected fewer elements in array"
args_of_value _ = inl "invalid type: expected struct PortableArgs"

-- `.into_iter().next().unwrap_or(Value::Null)`
unfoldable pub first_or_null : Elements → Value
first_or_null no_elements = null
first_or_null (element v rest) = v

unfoldable pub parse_args {ℓ} :
    {A : Type ℓ} → String ⊎ A → (A → String ⊎ PortableArgs) → String ⊎ PortableArgs
parse_args (inl e) f = inl e
parse_args (inr v) f = f v

module _ (J : Serde) where
  -- `serde_json::from_str::<PortableArgs>(s)`
  args_of_str : String → Result PortableArgs
  unfolding serde parse_args
  args_of_str s = serde (parse_args (J.from_str s) args_of_value)

  portable_input : Option String → Result Value
  unfolding args_of_str first_or_null
  portable_input none = ok null
  portable_input (some s) =
      if s == "null"
      then ok null
      else args_of_str s |> λ envelope. ok (first_or_null envelope.positional_args)

  first_argument : Value → Value
  unfolding first_or_null
  first_argument (array xs) = first_or_null xs
  first_argument v = v

  ts_input : Option String → Result Value
  unfolding first_argument
  ts_input none = ok null
  ts_input (some s) = decode_superjson J s |> λ v. ok (first_argument v)

  module _ {T : Type 0} (C : Serial T) where
    unfoldable pub encode_input : T → Format → Result String
    unfolding serde
    encode_input x portable = serde (C.to_value x) |> λ v. serde (
        J.to_string
          (args_value (record { positional_args = element v no_elements; named_args = empty_map })))
    encode_input x dbos_json = encode_value J C x dbos_json

    unfoldable pub decode_input : Option String → Option String → Result T
    unfolding serde portable_input ts_input
    decode_input text f =
        if column_eq f portable_name
        then (portable_input text |> λ value. serde (C.from_value value))
        else if column_eq f superjson_name
        then (ts_input text |> λ value. serde (C.from_value value))
        else decode_value J C text f
