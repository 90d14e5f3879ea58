-- ===== src/Serialize/Errors.antt =====
-- serialize.rs: workflow errors as they are stored, and src/runtime/step.rs's `decoded_step_error`.
use dbos_transact_rs.Prelude.{
  String, Option, none, some, ◌==◌, ◌⊎◌, inl, inr, column_eq, if◌then◌else◌,
}
use dbos_transact_rs.Error.DbosError.{DbosError, other}
use dbos_transact_rs.Serialize.Codec.{portable_name}
use dbos_transact_rs.Serialize.Value.{
  Value, null, string, array, object, Elements, element, Entries, empty_map, entry, get, get_item,
}
use dbos_transact_rs.Serialize.Serde.{Serde, right_or}
use dbos_transact_rs.Serialize.Formats.{Format, portable, dbos_json}

pub record PortableWorkflowError : Type 0 where
  pub name : String
  pub message : String
  pub code : Option Value
  pub details : Option Value

pub data DecodedError : Type 0 where
  plain : String → DecodedError
  portable_error : PortableWorkflowError → DecodedError

-- `skip_serializing_if = "Option::is_none"`
optional_field : String → Option Value → Entries → Entries
optional_field key none rest = rest
optional_field key (some v) rest = entry key v rest

unfoldable pub error_value : PortableWorkflowError → Value
unfolding optional_field
error_value e = object (
    entry "name" (string e.name) (
      entry "message" (string e.message)
        (optional_field "code" e.code (optional_field "data" e.details empty_map))))

text_of : Option Value → String ⊎ String
text_of none = inl "missing field"
text_of (some (string s)) = inr s
text_of (some _) = inl "invalid type: expected a string"

-- `#[serde(default)]` at an `Option`: a missing field and `null` are both `None`.
unfoldable pub optional : Option Value → Option Value
optional none = none
optional (some null) = none
optional (some v) = some v

both_texts :
    String ⊎ String → String ⊎ String → Option Value → Option Value → String ⊎ PortableWorkflowError
both_texts (inl e) r c d = inl e
both_texts (inr n) (inl e) c d = inl e
both_texts (inr n) (inr m) c d = inr (record { name = n; message = m; code = c; details = d })

error_fields :
    Option Value → Option Value → Option Value → Option Value → String ⊎ PortableWorkflowError
unfolding both_texts text_of optional
error_fields n m c d = both_texts (text_of n) (text_of m) (optional c) (optional d)

-- A sequence gives the fields in their order, and no more than four.
error_items : Elements → String ⊎ PortableWorkflowError
unfolding error_fields
error_items (element n (element m (element c (element d (element _ _))))) =
    inl "invalid length: expected fewer elements in array"
error_items xs = error_fields (get_item 0 xs) (get_item 1 xs) (get_item 2 xs) (get_item 3 xs)

unfoldable pub error_of_value : Value → String ⊎ PortableWorkflowError
unfolding error_fields error_items
error_of_value (object fs) =
    error_fields (get "name" fs) (get "message" fs) (get "code" fs) (get "data" fs)
error_of_value (array xs) = error_items xs
error_of_value _ = inl "invalid type: expected struct PortableWorkflowError"

abbrev pub parse_error : String ⊎ Value → String ⊎ PortableWorkflowError
parse_error (inl e) = inl e
parse_error (inr v) = error_of_value v

unfoldable pub decoded : String → String ⊎ PortableWorkflowError → DecodedError
decoded s (inl _) = plain s
decoded s (inr pe) = portable_error pe

unfoldable pub payload : String → Option PortableWorkflowError → PortableWorkflowError
payload message (some pe) = pe
payload message none = record {
  name = "Portable Error";
  message = message;
  code = none;
  details = none;
}

module _ (J : Serde) where
  unfoldable pub serialize_workflow_error : String → Option PortableWorkflowError → Format → String
  unfolding payload
  serialize_workflow_error message pe portable =
      right_or (J.to_string (error_value (payload message pe))) message
  serialize_workflow_error message pe dbos_json = message

  unfoldable pub deserialize_workflow_error : Option String → Option String → Option DecodedError
  unfolding decoded
  deserialize_workflow_error none f = none
  deserialize_workflow_error (some s) f =
      if s == ""
      then none
      else if column_eq f portable_name
      then some (decoded s (parse_error (J.from_str s)))
      else some (plain s)

  unfoldable pub step_error : Option DecodedError → DbosError
  step_error (some (plain s)) = other s
  step_error (some (portable_error pe)) = other pe.message
  step_error none = other "step failed"

  unfoldable pub decoded_step_error : String → Option String → DbosError
  unfolding step_error
  decoded_step_error err_str serialization =
      step_error (deserialize_workflow_error (some err_str) serialization)
