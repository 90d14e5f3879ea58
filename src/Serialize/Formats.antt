-- ===== src/Serialize/Formats.antt =====
-- serialize.rs: the formats, and values encoded and decoded in them.
use dbos_transact_rs.Prelude.{
  String, ◌||◌, Option, none, some, [], ◌∷◌, ◌==◌, format, if◌then◌else◌,
}
use dbos_transact_rs.Error.DbosError.{other}
use dbos_transact_rs.Exec.{Result, ok, err}
use dbos_transact_rs.Serialize.Codec.{portable_name}
use dbos_transact_rs.Serialize.Value.{Value, null, is_null}
use dbos_transact_rs.Serialize.Serde.{Serde, Serial, nil_marker, serde, base64, right_or, ◌|>◌}
use dbos_transact_rs.Serialize.Superjson.{decode_superjson}
use dbos_transact_rs.Serialize.Debug.{debug}

abbrev pub dbos_json_name : String
dbos_json_name = "DBOS_JSON"

abbrev pub superjson_name : String
superjson_name = "js_superjson"

abbrev pub py_pickle_name : String
py_pickle_name = "py_pickle"

-- The formats that are written.
pub data Format : Type 0 where
  portable dbos_json : Format

unfoldable pub name : Format → String
name portable = portable_name
name dbos_json = dbos_json_name

unfoldable pub from_name : Option String → Format
from_name none = portable
from_name (some n) = if n == dbos_json_name then dbos_json else portable

abbrev or_else_result {ℓ} : {A : Type ℓ} → Result A → Result A → Result A
or_else_result (ok a) r = ok a
or_else_result (err e) r = r

module _ (J : Serde) where
  unfoldable pub encode_json_value : Value → Format → String
  encode_json_value v portable = if is_null v then "null" else right_or (J.to_string v) "null"
  encode_json_value v dbos_json =
      if is_null v then nil_marker else J.base64_encode (right_or (J.to_vec v) [])

  unfoldable pub decode_base64_json : String → Result Value
  unfolding serde base64
  decode_base64_json s = base64 (J.base64_decode s) |> λ bytes. serde (J.from_slice bytes)

  portable_json : Option String → Result Value
  unfolding serde
  portable_json none = ok null
  portable_json (some s) = if s == "null" then ok null else serde (J.from_str s)

  go_json : Option String → Result Value
  go_json none = ok null
  go_json (some s) = if s == nil_marker then ok null else decode_base64_json s

  ts_json : Option String → Result Value
  ts_json none = ok null
  ts_json (some s) = decode_superjson J s

  -- A row whose format is not recorded: plain JSON and SuperJSON first, then base64.
  unfoldable pub best_effort : Option String → Result Value
  best_effort none = ok null
  best_effort (some s) =
      if s == "null" || s == nil_marker
      then ok null
      else or_else_result (decode_superjson J s) (decode_base64_json s)

  unfoldable pub decode_to_json : Option String → Option String → Result Value
  unfolding portable_json go_json ts_json
  decode_to_json text none = best_effort text
  decode_to_json text (some f) =
      if f == portable_name
      then portable_json text
      else if f == dbos_json_name || f == ""
      then go_json text
      else if f == superjson_name
      then ts_json text
      else if f == py_pickle_name
      then err (
          other
            "py_pickle is not portable; re-serialize such rows to portable_json on the Python side")
      else err (other (format ("unknown serialization format " ∷ debug f ∷ [])))

  module _ {T : Type 0} (C : Serial T) where
    unfoldable pub encode_value : T → Format → Result String
    unfolding serde
    encode_value x fmt = serde (C.to_value x) |> λ v. ok (encode_json_value v fmt)

    unfoldable pub decode_value : Option String → Option String → Result T
    unfolding serde
    decode_value text f = decode_to_json text f |> λ json. serde (C.from_value json)
