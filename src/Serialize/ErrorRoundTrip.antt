-- ===== src/Serialize/ErrorRoundTrip.antt =====
-- Workflow errors written and read back.
use dbos_transact_rs.Prelude.{
  String, ◌≡◌, ◌≢◌, refl, sym, ◌∙◌, arith, ◌≤◌, ◌+◌, true, false, Bool-cases, Option, none, some,
  ◌==◌, eq_iff, inl, inr, ap,
}
use dbos_transact_rs.Error.DbosError.{other}
use dbos_transact_rs.Serialize.Codec.{portable_name}
use dbos_transact_rs.Serialize.Value.{
  Value, null, boolean, number, array, object, string, canonical, depth, is_exact, insert, get,
}
use dbos_transact_rs.Serialize.Serde.{Serde, IsReadable, max_depth}
use dbos_transact_rs.Serialize.Formats.{portable, name}
use dbos_transact_rs.Serialize.Errors.{
  PortableWorkflowError, portable_error, error_value, error_of_value, optional,
  serialize_workflow_error, deserialize_workflow_error, decoded_step_error, decoded, payload,
  step_error,
}

abbrev error_with : String → String → Option Value → Option Value → PortableWorkflowError
error_with n m c d = record { name = n; message = m; code = c; details = d }

-- A code or details that come back: absent, or not `null`, as parsing builds it and not too deep.
pub record IsKeptValue (v : Value) : Type 0 where
  pub not_null : v ≢ null
  pub is_canonical : canonical v ≡ v
  pub exact : is_exact v ≡ true
  pub shallow : depth v + 1 ≤ max_depth

abbrev pub IsKept : Option Value → Type 0
IsKept none = Unit
IsKept (some v) = IsKeptValue v

optional-IsKeptValue : (v : Value) → IsKeptValue v → optional (some v) ≡ some v
unfolding optional
optional-IsKeptValue null h = absurd (h.not_null refl)
optional-IsKeptValue (boolean b) h = refl
optional-IsKeptValue (number n) h = refl
optional-IsKeptValue (string t) h = refl
optional-IsKeptValue (array xs) h = refl
optional-IsKeptValue (object fs) h = refl

IsReadable-error_value :
    (e : PortableWorkflowError) → IsKept e.code → IsKept e.details → IsReadable (error_value e)
unfolding error_value is_exact depth
IsReadable-error_value e hc hd = go e.name e.message e.code e.details hc hd
  where
    go :
        (n m : String) (c d : Option Value)
        → IsKept c
        → IsKept d
        → IsReadable (error_value (error_with n m c d))
    go n m none none hc hd = record { exact = refl; shallow = omega arith }
    go n m (some c) none hc hd = record {
      exact = ground (arith, hc.exact);
      shallow = omega (arith, hc.shallow);
    }
    go n m none (some d) hc hd = record {
      exact = ground (arith, hd.exact);
      shallow = omega (arith, hd.shallow);
    }
    go n m (some c) (some d) hc hd = record {
      exact = ground (arith, hc.exact, hd.exact);
      shallow = omega (arith, hc.shallow, hd.shallow);
    }

error_of_value-canonical :
    (e : PortableWorkflowError)
    → IsKept e.code
    → IsKept e.details
    → error_of_value (canonical (error_value e)) ≡ inr e
unfolding error_value error_of_value canonical insert get
error_of_value-canonical e hc hd = go e.name e.message e.code e.details hc hd
  where
    go :
        (n m : String) (c d : Option Value)
        → IsKept c
        → IsKept d
        → error_of_value (canonical (error_value (error_with n m c d))) ≡ inr (error_with n m c d)
    go n m none none hc hd = refl
    go n m (some c) none hc hd = rw hc.is_canonical (rw (optional-IsKeptValue c hc))
    go n m none (some d) hc hd = rw hd.is_canonical (rw (optional-IsKeptValue d hd))
    go n m (some c) (some d) hc hd =
        rw (hc.is_canonical, hd.is_canonical)
          (rw (optional-IsKeptValue c hc, optional-IsKeptValue d hd))

module _ (J : Serde) where
  -- A text that parses is not empty.
  not_empty : (v : Value) (s : String) → J.from_str s ≡ inr v → (s == "") ≡ false
  not_empty v s h = elim (Bool-cases (s == "")) [
    | inl e ↦ absurd (J.from_str_empty v (ap J.from_str (sym ((eq_iff s "").0 e)) ∙ h))
    | inr e ↦ e
  ]

  read_error :
      (e : PortableWorkflowError) (s : String)
      → IsKept e.code
      → IsKept e.details
      → J.to_string (error_value e) ≡ inr s
      → deserialize_workflow_error J (some s) (some portable_name) ≡ some (portable_error e)
  unfolding deserialize_workflow_error decoded
  read_error e s hc hd h =
      let parsed = J.from_str-to_string (error_value e) s (IsReadable-error_value e hc hd) h in
      rw (not_empty (canonical (error_value e)) s parsed)
        (rw parsed (rw (error_of_value-canonical e hc hd)))

  -- A portable error whose text could be written is read back from it, if its code and its details,
  -- where it has them, are not null, have no floats, are at most 126 levels deep and have the fields of
  -- their maps in the order of the keys. (A null code or null details would be read back as none.)
  pub deserialize-serialize_workflow_error :
      (message : String) (e : PortableWorkflowError) (s : String)
      → IsKept e.code
      → IsKept e.details
      → J.to_string (error_value e) ≡ inr s
      → deserialize_workflow_error J
          (some (serialize_workflow_error J message (some e) portable))
          (some (name portable))
        ≡ some (portable_error e)
  unfolding serialize_workflow_error payload name
  deserialize-serialize_workflow_error message e s hc hd h = rw h (read_error e s hc hd h)

  -- A step error without a portable form comes back as an uncoded error with its message.
  pub decoded_step_error-serialize_workflow_error :
      (message : String) (s : String)
      → J.to_string (error_value (payload message none)) ≡ inr s
      → decoded_step_error J (serialize_workflow_error J message none portable) (some portable_name)
        ≡ other message
  unfolding serialize_workflow_error decoded_step_error step_error payload
  decoded_step_error-serialize_workflow_error message s h =
      rw h (rw (read_error (payload message none) s tt tt h))
