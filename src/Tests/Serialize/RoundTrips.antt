-- ===== src/Tests/Serialize/RoundTrips.antt =====
-- serialize.rs at the concrete texts: round trips, and the formats of the TypeScript SDK.
use dbos_transact_rs.Prelude.{String, ◌≡◌, refl, arith, Bool, true, false, none, some, inr, [], ◌∷◌}
use dbos_transact_rs.Prelude.Int.{pos, negsuc}
use dbos_transact_rs.Exec.{ok}
use dbos_transact_rs.Serialize.Value.{
  Value, boolean, number, string, array, object, element, no_elements, entry, empty_map, integer,
  canonical, is_exact, depth, modify, modify_item, insert, get,
}
use dbos_transact_rs.Serialize.Numbers.{parse_i64, parse_u64}
use dbos_transact_rs.Serialize.Serde.{IsReadable}
use dbos_transact_rs.Serialize.Formats.{
  portable, dbos_json, name, encode_value, decode_value, encode_json_value, decode_to_json,
}
use dbos_transact_rs.Serialize.Input.{args_value, encode_input, decode_input}
use dbos_transact_rs.Serialize.Errors.{
  PortableWorkflowError, error_value, payload, portable_error, serialize_workflow_error,
  deserialize_workflow_error,
}
use dbos_transact_rs.Serialize.Superjson.{
  apply_superjson_meta, apply_legacy_revival, apply_superjson_tag, contains, superjson_marker,
  navigate_mut, big_integer, legacy_data,
}
use dbos_transact_rs.Serialize.Coder.{IsStorable}
use dbos_transact_rs.Serialize.RoundTrip.{decode_value-encode_value}
use dbos_transact_rs.Serialize.InputRoundTrip.{decode_input-encode_input, envelope_of}
use dbos_transact_rs.Serialize.ErrorRoundTrip.{deserialize-serialize_workflow_error, IsKeptValue}
use dbos_transact_rs.Serialize.BestEffort.{decode_to_json-unrecorded, is_plain}
use dbos_transact_rs.Tests.Serialize.Machine.{print}
use dbos_transact_rs.Tests.Serialize.Instance.{machine, bool_serial, to_bytes, inr_text, inr_value}

readable : (b : Bool) → IsReadable (boolean b)
unfolding is_exact depth
readable b = record { exact = refl; shallow = omega arith }

decode_value-encode_value_example :
    (s : String) × (encode_value machine bool_serial true dbos_json ≡ ok s)
    × (decode_value machine bool_serial (some s) (some (name dbos_json)) ≡ ok true)
unfolding to_bytes
decode_value-encode_value_example =
    decode_value-encode_value machine bool_serial true dbos_json (boolean true) refl (2 ∷ [], refl)
      (readable true)

decode_input-encode_input_example :
    (s : String) × (encode_input machine bool_serial false portable ≡ ok s)
    × (decode_input machine bool_serial (some s) (some (name portable)) ≡ ok false)
unfolding depth
decode_input-encode_input_example =
    decode_input-encode_input machine bool_serial false portable (boolean false) refl
      ((print (args_value (envelope_of (boolean false))), refl), omega arith) (readable false)

-- {"name": "Refused", "message": "no funds", "code": 402}
abbrev refused : PortableWorkflowError
refused = record {
  name = "Refused";
  message = "no funds";
  code = some (number (integer (pos 402)));
  details = none;
}

kept : IsKeptValue (number (integer (pos 402)))
unfolding canonical is_exact depth
kept = record {
  not_null = λ p. absurd (ground (arith, p));
  is_canonical = refl;
  exact = refl;
  shallow = omega arith;
}

deserialize-serialize_workflow_error_example :
    deserialize_workflow_error machine
      (some (serialize_workflow_error machine "no funds" (some refused) portable))
      (some (name portable))
    ≡ some (portable_error refused)
deserialize-serialize_workflow_error_example =
    deserialize-serialize_workflow_error machine "no funds" refused (print (error_value refused))
      kept tt refl

-- {"items": ["a", 2], "paid": true}
abbrev order : Value
order = object (
    entry "items" (array (element (string "a") (element (number (integer (pos 2))) no_elements)))
      (entry "paid" (boolean true) empty_map))

order-IsReadable : IsReadable order
unfolding is_exact depth
order-IsReadable = record { exact = refl; shallow = omega arith }

unmarked : (s : String) → machine.to_string order ≡ inr s → contains s superjson_marker ≡ false
unfolding contains print
unmarked s h = rw (← inr_text h)

decode_to_json-unrecorded_example :
    decode_to_json machine (some (encode_json_value machine order portable)) none
    ≡ decode_to_json machine
        (some (encode_json_value machine order portable))
        (some (name portable))
unfolding is_plain canonical insert get
decode_to_json-unrecorded_example =
    decode_to_json-unrecorded machine order portable (print order, refl) order-IsReadable
      (unmarked, refl)

-- Both truth values are stored, as is the error of any message.
bools : IsStorable machine bool_serial
unfolding is_exact depth canonical
bools = record {
  prints = λ x v h. (print v, refl);
  readable = λ x v h. rw (← inr_value h) (readable x);
  messages = λ m. (print (error_value (payload m none)), refl);
}

-- A set of one BigInt under "n": `meta.values` is {"n": ["set", {"0": "bigint"}]}.
revives_bigint :
    apply_superjson_meta machine
      (object (
        entry "n"
          (array (
            element
              (string "set")
              (element (object (entry "0" (string "bigint") empty_map)) no_elements)))
          empty_map))
      (object (entry "n" (array (element (string "-12") no_elements)) empty_map))
    ≡ object (entry "n" (array (element (number (integer (negsuc 11))) no_elements)) empty_map)
unfolding apply_superjson_meta navigate_mut modify apply_superjson_tag modify_item big_integer
    parse_u64 parse_i64
revives_bigint = refl

revives_map :
    apply_superjson_meta machine (string "map") (
      array
        (element (array (element (string "a") (element (boolean true) no_elements))) no_elements))
    ≡ object (entry "a" (boolean true) empty_map)
unfolding apply_superjson_meta apply_superjson_tag insert
revives_map = refl

revives_date :
    apply_legacy_revival (
      object (
        entry "dbos_data" (string "2024-01-01") (entry "dbos_type" (string "dbos_Date") empty_map)))
    ≡ string "2024-01-01"
unfolding apply_legacy_revival legacy_data get
revives_date = refl
