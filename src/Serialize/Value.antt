-- ===== src/Serialize/Value.antt =====
-- serde_json's `Value`, whose constructors serialize.rs matches on, and the calls of its maps that
-- the code makes. A map is a BTreeMap: the list of its entries, in the order of the keys.
use Prim.Native.Nat.{ℕ, zero, suc, max}
use Prim.Native.String.{String, compare}
use text.Mathlib.Text.{is_lt}
use dbos_transact_rs.Prelude.{Bool, true, false, ◌&&◌, Option, none, some, ◌==◌, if◌then◌else◌}
use dbos_transact_rs.Prelude.Int.{ℤ}

-- An integer of i64 or u64, or the text of an f64.
pub data Number : Type 0 where
  integer : ℤ → Number
  float : String → Number

mutual
  -- The entries of a map.
  pub data Entries : Type 0 where
    empty_map : Entries
    entry : String → Value → Entries → Entries

  pub data Elements : Type 0 where
    no_elements : Elements
    element : Value → Elements → Elements

  pub data Value : Type 0 where
    null : Value
    boolean : Bool → Value
    number : Number → Value
    string : String → Value
    array : Elements → Value
    object : Entries → Value

unfoldable pub is_null : Value → Bool
is_null null = true
is_null _ = false

-- `map.get(key)`
unfoldable pub get : String → Entries → Option Value
get key empty_map = none
get key (entry k v rest) = if k == key then some v else get key rest

-- `map.insert(key, value)`: the value of a key that is present is replaced.
unfoldable pub insert : String → Value → Entries → Entries
insert key v empty_map = entry key v empty_map
insert key v (entry k w rest) =
    if k == key
    then entry key v rest
    else if is_lt (compare key k)
    then entry key v (entry k w rest)
    else entry k w (insert key v rest)

-- `*map.get_mut(key) = f(…)`, where the key is present.
unfoldable pub modify : String → (Value → Value) → Entries → Entries
modify key f empty_map = empty_map
modify key f (entry k v rest) =
    if k == key then entry k (f v) rest else entry k v (modify key f rest)

-- `arr.get(i)`
unfoldable pub get_item : ℕ → Elements → Option Value
get_item i no_elements = none
get_item zero (element v rest) = some v
get_item (suc i) (element v rest) = get_item i rest

-- `*arr.get_mut(i) = f(…)`, where the index is in range.
unfoldable pub modify_item : ℕ → (Value → Value) → Elements → Elements
modify_item i f no_elements = no_elements
modify_item zero f (element v rest) = element (f v) rest
modify_item (suc i) f (element v rest) = element v (modify_item i f rest)

-- What parsing makes of the entries that a text lists: each is inserted into the map in turn.
unfoldable mutual
  pub canonical : Value → Value
  canonical null = null
  canonical (boolean b) = boolean b
  canonical (number n) = number n
  canonical (string s) = string s
  canonical (array xs) = array (canonical_items xs)
  canonical (object fs) = object (canonical_fields fs empty_map)

  pub canonical_items : Elements → Elements
  canonical_items no_elements = no_elements
  canonical_items (element v rest) = element (canonical v) (canonical_items rest)

  pub canonical_fields : Entries → Entries → Entries
  canonical_fields empty_map acc = acc
  canonical_fields (entry k v rest) acc = canonical_fields rest (insert k (canonical v) acc)

unfoldable mutual
  pub depth : Value → ℕ
  depth (array xs) = suc (depth_items xs)
  depth (object fs) = suc (depth_fields fs)
  depth _ = 0

  pub depth_items : Elements → ℕ
  depth_items no_elements = 0
  depth_items (element v rest) = max (depth v) (depth_items rest)

  pub depth_fields : Entries → ℕ
  depth_fields empty_map = 0
  depth_fields (entry k v rest) = max (depth v) (depth_fields rest)

-- No number is a float, whose digits need not come back exactly.
unfoldable mutual
  pub is_exact : Value → Bool
  is_exact (number (float _)) = false
  is_exact (array xs) = exact_items xs
  is_exact (object fs) = exact_fields fs
  is_exact _ = true

  pub exact_items : Elements → Bool
  exact_items no_elements = true
  exact_items (element v rest) = is_exact v && exact_items rest

  pub exact_fields : Entries → Bool
  exact_fields empty_map = true
  exact_fields (entry k v rest) = is_exact v && exact_fields rest
