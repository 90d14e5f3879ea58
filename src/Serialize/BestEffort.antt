-- ===== src/Serialize/BestEffort.antt =====
-- Rows whose format is not recorded: what this crate wrote is read as in its own format.
use dbos_transact_rs.Prelude.{
  ℕ, String, ◌≡◌, ◌≢◌, refl, sym, ap, ◌∙◌, arith, Bool, true, false, not, ◌&&◌, Bool-cases, Option,
  none, some, List, ◌==◌, eq_iff, inl, inr, is_some,
}
use dbos_transact_rs.Exec.{ok}
use dbos_transact_rs.Serialize.Value.{
  Value, null, boolean, number, string, array, object, Elements, no_elements, element, Entries,
  empty_map, entry, is_null, canonical, get,
}
use dbos_transact_rs.Serialize.Serde.{Serde, IsReadable, nil_marker, serde, base64}
use dbos_transact_rs.Serialize.Superjson.{
  contains, superjson_marker, legacy_data, wrapped, apply_legacy_revival, revive_items,
  revive_fields, decode_superjson,
}
use dbos_transact_rs.Serialize.Formats.{
  Format, portable, dbos_json, name, encode_json_value, decode_to_json, decode_base64_json,
  best_effort,
}
use dbos_transact_rs.Serialize.RoundTrip.{Prints, is_null→null, decode_to_json-encode_json_value}

-- No map has the key that marks the legacy wrappers.
unfoldable mutual
  pub is_plain : Value → Bool
  is_plain (array xs) = plain_items xs
  is_plain (object fs) = not (is_some (get "dbos_type" fs)) && plain_fields fs
  is_plain _ = true

  plain_items : Elements → Bool
  plain_items no_elements = true
  plain_items (element v rest) = is_plain v && plain_items rest

  plain_fields : Entries → Bool
  plain_fields empty_map = true
  plain_fields (entry k v rest) = is_plain v && plain_fields rest

both : (a b : Bool) → (a && b) ≡ true → (a ≡ true) × (b ≡ true)
both true b h = (refl, h)
both false b h = absurd (ground (arith, h))

unmarked : (fs : Entries) → not (is_some (get "dbos_type" fs)) ≡ true → legacy_data fs ≡ none
unfolding legacy_data wrapped
unmarked fs h = go (get "dbos_type" fs) h
  where
    go : (o : Option Value) → not (is_some o) ≡ true → wrapped o (get "dbos_data" fs) ≡ none
    go none h = refl
    go (some v) h = absurd (ground (arith, h))

mutual
  unfolding is_plain apply_legacy_revival

  -- The revival of legacy wrappers leaves a value without them as it is.
  pub apply_legacy_revival-is_plain : (v : Value) → is_plain v ≡ true → apply_legacy_revival v ≡ v
  apply_legacy_revival-is_plain null h = refl
  apply_legacy_revival-is_plain (boolean b) h = refl
  apply_legacy_revival-is_plain (number n) h = refl
  apply_legacy_revival-is_plain (string s) h = refl
  apply_legacy_revival-is_plain (array xs) h = ap array (revive_items-plain xs h)
  apply_legacy_revival-is_plain (object fs) h =
      let parts = both (not (is_some (get "dbos_type" fs))) (plain_fields fs) h in
      rw (unmarked fs parts.0) (ap object (revive_fields-plain fs parts.1))

  revive_items-plain : (xs : Elements) → plain_items xs ≡ true → revive_items xs ≡ xs
  revive_items-plain no_elements h = refl
  revive_items-plain (element v rest) h =
      let parts = both (is_plain v) (plain_items rest) h in
      cc (apply_legacy_revival-is_plain v parts.0, revive_items-plain rest parts.1)

  revive_fields-plain : (fs : Entries) → plain_fields fs ≡ true → revive_fields fs ≡ fs
  revive_fields-plain empty_map h = refl
  revive_fields-plain (entry k v rest) h =
      let parts = both (is_plain v) (plain_fields rest) h in
      cc (apply_legacy_revival-is_plain v parts.0, revive_fields-plain rest parts.1)

-- What tells the two written formats apart: no text of the portable format looks like SuperJSON or
-- holds legacy wrappers, and no base64 text is a JSON text.
module _ (J : Serde) where
  abbrev pub IsUnambiguous : Value → Format → Type 0
  IsUnambiguous v portable =
      ((s : String) → J.to_string v ≡ inr s → contains s superjson_marker ≡ false)
      × (is_plain (canonical v) ≡ true)
  IsUnambiguous v dbos_json =
      (b : List ℕ)
      → J.to_vec v ≡ inr b
      → (text : String) × (J.from_str (J.base64_encode b) ≡ inl text)

  differs : (s t : String) → s ≢ t → (s == t) ≡ false
  differs s t h = ground (arith, eq_iff s t, h)

  portable_row :
      (v : Value) (s : String)
      → J.from_str s ≡ inr (canonical v)
      → contains s superjson_marker ≡ false
      → is_plain (canonical v) ≡ true
      → best_effort J (some s) ≡ ok (canonical v)
  unfolding best_effort decode_superjson serde
  portable_row v s h c p = elim (Bool-cases (s == "null")) [
    | inl e ↦
        let same = ap J.from_str ((eq_iff s "null").0 e) in rw e (cc (J.from_str_null, h, same))
    | inr e ↦
        let unmarked_text =
          differs s nil_marker
            λ q. J.from_str_nil_marker (canonical v) (ap J.from_str (sym q) ∙ h) in
        rw (e, unmarked_text) (rw c (rw h (rw (apply_legacy_revival-is_plain (canonical v) p))))
  ]

  no_json :
      (b : List ℕ) (text : String)
      → J.from_str (J.base64_encode b) ≡ inl text
      → J.base64_encode b ≢ "null"
  no_json b text n q =
      let same = ap J.from_str q in absurd (ground (arith, n, same, J.from_str_null))

  no_superjson :
      (s text : String) → J.from_str s ≡ inl text → decode_superjson J s ≡ serde (inl text)
  unfolding decode_superjson serde
  no_superjson s text n = elim (Bool-cases (contains s superjson_marker)) [
    | inl e ↦ rw (n, e)
    | inr e ↦ rw (n, e)
  ]

  base64_row :
      (v : Value) (b : List ℕ) (text : String)
      → J.from_slice b ≡ inr (canonical v)
      → J.from_str (J.base64_encode b) ≡ inl text
      → best_effort J (some (J.base64_encode b)) ≡ ok (canonical v)
  unfolding best_effort serde base64 decode_base64_json
  base64_row v b text h n =
      let unmarked_text =
        differs (J.base64_encode b) nil_marker
          λ q. J.base64_nil_marker b (ap J.base64_decode (sym q) ∙ J.base64_decode-encode b) in
      rw (differs (J.base64_encode b) "null" (no_json b text n), unmarked_text)
        (rw (no_superjson (J.base64_encode b) text n) (rw (J.base64_decode-encode b) (rw h)))

  unrecorded_row :
      (v : Value) (fmt : Format)
      → Prints J v fmt
      → IsReadable v
      → IsUnambiguous v fmt
      → decode_to_json J (some (encode_json_value J v fmt)) none ≡ ok (canonical v)
  unfolding decode_to_json encode_json_value canonical
  unrecorded_row v portable p r u = elim (Bool-cases (is_null v)) [
    | inl e ↦ rw e (unfold best_effort in rw (is_null→null v e))
    | inr e ↦
        rw e (rw p.1 (portable_row v p.0 (J.from_str-to_string v p.0 r p.1) (u.0 p.0 p.1) u.1))
  ]
  unrecorded_row v dbos_json p r u = elim (Bool-cases (is_null v)) [
    | inl e ↦ rw e (unfold best_effort in rw (is_null→null v e))
    | inr e ↦
        rw e
          (rw p.1 (base64_row v p.0 (u p.0 p.1).0 (J.from_slice-to_vec v p.0 r p.1) (u p.0 p.1).1))
  ]

  -- A value without floats and at most 127 levels deep is written and its format is not recorded. It
  -- is read as in its own format, if the two formats cannot be confused for it: a portable text does
  -- not contain the marker of SuperJSON and the value has no map with the key "dbos_type", and a base64
  -- text is not itself a JSON text.
  pub decode_to_json-unrecorded :
      (v : Value) (fmt : Format)
      → Prints J v fmt
      → IsReadable v
      → IsUnambiguous v fmt
      → decode_to_json J (some (encode_json_value J v fmt)) none
        ≡ decode_to_json J (some (encode_json_value J v fmt)) (some (name fmt))
  decode_to_json-unrecorded v fmt p r u =
      unrecorded_row v fmt p r u ∙ sym (decode_to_json-encode_json_value J v fmt p r)
