-- ===== src/Serialize/Codec.antt =====
-- What the runtime uses of serialize.rs for values of one type: `encode_value` and `decode_value`,
-- and the text of a step error and back (`serialize_workflow_error`, `decoded_step_error`).
use dbos_transact_rs.Prelude.{String, ◌≡◌, Option, some}
use dbos_transact_rs.Error.DbosError.{DbosError, other}
use dbos_transact_rs.Exec.{Result, ok}

-- `Format::Portable.name()`
abbrev pub portable_name : String
portable_name = "portable_json"

pub record Codec (R : Type 0) : Type 0 where
  pub encode : R → Result String
  pub decode : Option String → Option String → Result R
  pub encode_error : String → String
  pub decode_error : String → Option String → DbosError
  -- What was encoded is decoded to the same value.
  pub decode-encode :
      (v : R) (s : String) → encode v ≡ ok s → decode (some s) (some portable_name) ≡ ok v
  -- An error comes back as an uncoded error with the text that was stored.
  pub decode_error-encode_error :
      (text : String) → decode_error (encode_error text) (some portable_name) ≡ other text
