-- ===== src/Serialize/Serde.antt =====
-- What serialize.rs calls of serde_json and base64: texts and bytes of JSON values. A failure is the
-- text of the foreign error. The laws are those of serde_json's round trip, for values whose numbers
-- are integers and that nest no deeper than its parser goes, and of the standard base64 alphabet.
use dbos_transact_rs.Prelude.{ℕ, String, ◌≡◌, ◌≢◌, ◌⊎◌, inl, inr, ◌≤◌, true, List}
use dbos_transact_rs.Error.Constructors.{from_serde_json, from_base64}
use dbos_transact_rs.Exec.{Result, ok, err}
use dbos_transact_rs.Serialize.Value.{Value, null, canonical, depth, is_exact}

-- `NIL_MARKER`
abbrev pub nil_marker : String
nil_marker = "__DBOS_NIL"

-- The parser refuses the 128th level.
abbrev pub max_depth : ℕ
max_depth = 127

-- What a text can hold and give back.
pub record IsReadable (v : Value) : Type 0 where
  pub exact : is_exact v ≡ true
  pub shallow : depth v ≤ max_depth

pub record Serde : Type 0 where
  pub to_string : Value → String ⊎ String
  pub from_str : String → String ⊎ Value
  pub to_vec : Value → String ⊎ List ℕ
  pub from_slice : List ℕ → String ⊎ Value
  pub base64_encode : List ℕ → String
  pub base64_decode : String → String ⊎ List ℕ
  -- The `Display` text of a value.
  pub display_value : Value → String
  pub from_str-to_string :
      (v : Value) (s : String) → IsReadable v → to_string v ≡ inr s → from_str s ≡ inr (canonical v)
  pub from_str_null : from_str "null" ≡ inr null
  -- No value's text is empty or the marker.
  pub from_str_empty : (v : Value) → from_str "" ≢ inr v
  pub from_str_nil_marker : (v : Value) → from_str nil_marker ≢ inr v
  pub from_slice-to_vec :
      (v : Value) (b : List ℕ) → IsReadable v → to_vec v ≡ inr b → from_slice b ≡ inr (canonical v)
  pub base64_decode-encode : (b : List ℕ) → base64_decode (base64_encode b) ≡ inr b
  -- `_` is not a letter of the standard alphabet.
  pub base64_nil_marker : (b : List ℕ) → base64_decode nil_marker ≢ inr b

-- A type's derived `Serialize` and `Deserialize`. `to_value` makes its maps by inserting.
pub record Serial (T : Type 0) : Type 0 where
  pub to_value : T → String ⊎ Value
  pub from_value : Value → String ⊎ T
  pub to_value-canonical : (x : T) (v : Value) → to_value x ≡ inr v → canonical v ≡ v
  pub from_value-to_value : (x : T) (v : Value) → to_value x ≡ inr v → from_value v ≡ inr x

-- `?` on a result of serde_json.
unfoldable pub serde {ℓ} : {A : Type ℓ} → String ⊎ A → Result A
serde (inl text) = err (from_serde_json text)
serde (inr a) = ok a

-- `?` on a result of base64.
unfoldable pub base64 {ℓ} : {A : Type ℓ} → String ⊎ A → Result A
base64 (inl text) = err (from_base64 text)
base64 (inr a) = ok a

-- `unwrap_or…`
abbrev pub right_or {ℓ} : {A : Type ℓ} → String ⊎ A → A → A
right_or (inl text) d = d
right_or (inr a) d = a

infixl 10 ◌|>◌
abbrev pub ◌|>◌ {ℓ κ} : {A : Type ℓ} {B : Type κ} → Result A → (A → Result B) → Result B
err e |> f = err e
ok a |> f = f a
