-- ===== src/Tests/Codecs.antt =====
-- Coders that the tests use.
use dbos_transact_rs.Prelude.{
  ℕ, String, ◌≡◌, refl, sym, arith, Option, none, some, eqb, if◌then◌else◌,
}
use dbos_transact_rs.Error.DbosError.{other}
use dbos_transact_rs.Exec.{Result, ok, err}
use dbos_transact_rs.Serialize.Codec.{Codec}
use dbos_transact_rs.Runtime.Context.Replay.{Encodes}

abbrev decode_text : Option String → Result String
decode_text none = ok ""
decode_text (some s) = ok s

-- Texts that are stored as they are.
abbrev pub text_codec : Codec String
text_codec = record {
  encode = λ s. ok s;
  decode = λ s _. decode_text s;
  encode_error = λ s. s;
  decode_error = λ s _. other s;
  decode-encode = λ v s e. sym e;
  decode_error-encode_error = λ s. refl;
}

unfoldable pub text_codec-Encodes : Encodes text_codec
text_codec-Encodes v = (v, refl)

abbrev pub unit_codec : Codec (Unit {0})
unit_codec = record {
  encode = λ _. ok "null";
  decode = λ _ _. ok tt;
  encode_error = λ s. s;
  decode_error = λ s _. other s;
  decode-encode = λ v s e. refl;
  decode_error-encode_error = λ s. refl;
}

abbrev deadline_text : ℕ → Result String
deadline_text n = if eqb n 1500 then ok "1500" else err (other "not the deadline")

abbrev deadline : Option String → Result ℕ
deadline _ = ok 1500

pub only_deadline : (v : ℕ) (s : String) → deadline_text v ≡ ok s → deadline (some s) ≡ ok v
only_deadline v s e = ground (arith, e)

-- A coder of the one deadline that the tests use.
abbrev pub deadline_codec : Codec ℕ
deadline_codec = record {
  encode = deadline_text;
  decode = λ s _. deadline s;
  encode_error = λ s. s;
  decode_error = λ s _. other s;
  decode-encode = only_deadline;
  decode_error-encode_error = λ s. refl;
}
