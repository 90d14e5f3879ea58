-- ===== src/Serialize/Superjson.antt =====
-- serialize.rs: the payloads of the TypeScript SDK, which are read only.
use dbos_transact_rs.Prelude.{ℕ, String, Bool, Option, none, some, ◌==◌, is_some, if◌then◌else◌}
use dbos_transact_rs.Prelude.Int.{ℤ, pos}
use text.Mathlib.Text.{find?}
use dbos_transact_rs.Error.DbosError.{other}
use dbos_transact_rs.Exec.{Result, ok, err}
use dbos_transact_rs.Serialize.Numbers.{parse_i64, parse_u64}
use dbos_transact_rs.Serialize.Value.{
  Value, null, boolean, number, string, array, object, Elements, no_elements, element, Entries,
  empty_map, entry, integer, get, insert, modify, modify_item,
}
use dbos_transact_rs.Serialize.Serde.{Serde, serde, ◌|>◌}

abbrev pub superjson_marker : String
superjson_marker = "\"__dbos_serializer\":\"superjson\""

-- `data.contains(marker)`
unfoldable pub contains : String → String → Bool
contains text marker = is_some (find? text marker)

-- A BigInt's digits as a number, where they fit i64 or u64.
as_unsigned : Option ℕ → Option Value
as_unsigned none = none
as_unsigned (some n) = some (number (integer (pos n)))

as_integer : Option ℤ → Option Value → Option Value
as_integer none v = v
as_integer (some z) v = some (number (integer z))

unfoldable pub big_integer : String → Option Value
unfolding as_unsigned as_integer
big_integer s = as_integer (parse_i64 s) (as_unsigned (parse_u64 s))

module _ (J : Serde) where
  -- The key of a pair of a Map: a string as it is, any other value by its text.
  map_key : Value → String
  map_key (string k) = k
  map_key v = J.display_value v

  -- The loop over the pairs: it stops at an element that is not a pair.
  collect_pairs : Elements → Entries → Option Entries
  unfolding map_key
  collect_pairs no_elements acc = some acc
  collect_pairs (element (array (element k (element v no_elements))) rest) acc =
      collect_pairs rest (insert (map_key k) v acc)
  collect_pairs (element _ rest) acc = none

  map_object : Elements → Option Entries → Value
  map_object pairs none = array pairs
  map_object pairs (some fs) = object fs

  lower_bigint : Value → Value
  lower_bigint (string s) = elim (big_integer s) [ none ↦ string s | some n ↦ n ]
  lower_bigint v = v

  lower_map : Value → Value
  unfolding map_object collect_pairs
  lower_map (array pairs) = map_object pairs (collect_pairs pairs empty_map)
  lower_map v = v

  unfoldable pub apply_superjson_tag : String → Value → Value
  unfolding lower_bigint lower_map
  apply_superjson_tag tag json =
      if tag == "bigint" then lower_bigint json else if tag == "map" then lower_map json else json

  modify_index : Option ℕ → (Value → Value) → Elements → Elements
  modify_index none f xs = xs
  modify_index (some i) f xs = modify_item i f xs

  -- A write through `navigate_mut(json, key)`, if there is such a node.
  unfoldable pub navigate_mut : String → (Value → Value) → Value → Value
  unfolding modify_index
  navigate_mut key f (object fs) = object (modify key f fs)
  navigate_mut key f (array xs) = array (modify_index (parse_u64 key) f xs)
  navigate_mut key f v = v

  unfoldable mutual
    -- Walks the annotations of `meta.values` and transforms the nodes that they name.
    pub apply_superjson_meta : Value → Value → Value
    apply_superjson_meta (string tag) json = apply_superjson_tag tag json
    apply_superjson_meta (array parts) json = apply_parts parts json
    apply_superjson_meta (object children) json = apply_children children json
    apply_superjson_meta _ json = json

    -- `[type, sub-annotation]`
    apply_parts : Elements → Value → Value
    apply_parts (element (string tag) rest) json = apply_superjson_tag tag (apply_first rest json)
    apply_parts _ json = json

    apply_first : Elements → Value → Value
    apply_first no_elements json = json
    apply_first (element sub rest) json = apply_superjson_meta sub json

    apply_children : Entries → Value → Value
    apply_children empty_map json = json
    apply_children (entry key child rest) json =
        apply_children rest (navigate_mut key (λ node. apply_superjson_meta child node) json)

-- What a wrapper `{dbos_type, dbos_data}` of the legacy format stands for, if the map is one.
big_data : Option Value → Option Value
unfolding big_integer
big_data (some (string s)) = big_integer s
big_data _ = none

unfoldable pub wrapped : Option Value → Option Value → Option Value
unfolding big_data
wrapped (some (string t)) text =
    if t == "dbos_Date" then text else if t == "dbos_BigInt" then big_data text else none
wrapped _ text = none

unfoldable pub legacy_data : Entries → Option Value
unfolding wrapped
legacy_data fs = wrapped (get "dbos_type" fs) (get "dbos_data" fs)

abbrev or_object : Option Value → Entries → Value
or_object (some text) fs = text
or_object none fs = object fs

unfoldable mutual
  pub apply_legacy_revival : Value → Value
  apply_legacy_revival null = null
  apply_legacy_revival (boolean b) = boolean b
  apply_legacy_revival (number n) = number n
  apply_legacy_revival (string s) = string s
  apply_legacy_revival (array xs) = array (revive_items xs)
  apply_legacy_revival (object fs) =
      let revived = revive_fields fs in or_object (legacy_data fs) revived

  pub revive_items : Elements → Elements
  revive_items no_elements = no_elements
  revive_items (element v rest) = element (apply_legacy_revival v) (revive_items rest)

  pub revive_fields : Entries → Entries
  revive_fields empty_map = empty_map
  revive_fields (entry k v rest) = entry k (apply_legacy_revival v) (revive_fields rest)

module _ (J : Serde) where
  -- `obj.get("meta").and_then(|m| m.get("values"))`: the index of a value that is no map finds
  -- nothing.
  meta_values : Option Value → Option Value
  meta_values (some (object meta)) = get "values" meta
  meta_values _ = none

  apply_values : Option Value → Value → Value
  apply_values none json = json
  apply_values (some values) json = apply_superjson_meta J values json

  json_of : Option Value → Value
  json_of none = null
  json_of (some v) = v

  envelope : Value → Result Value
  unfolding apply_values meta_values json_of
  envelope (object obj) =
      ok (apply_values (meta_values (get "meta" obj)) (json_of (get "json" obj)))
  envelope _ = err (other "invalid js_superjson payload: not an object")

  unfoldable pub decode_superjson : String → Result Value
  unfolding envelope serde
  decode_superjson text =
      if contains text superjson_marker
      then serde (J.from_str text) |> envelope
      else serde (J.from_str text) |> λ v. ok (apply_legacy_revival v)
