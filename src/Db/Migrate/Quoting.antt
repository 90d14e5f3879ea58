-- ===== src/Db/Migrate/Quoting.antt =====
-- db/mod.rs: a quoted identifier is read back whole, whatever characters the name has.
use Prim.Native.Char.{code}
use Prim.Native.String
use Prim.Native.String.{String}
use text.Mathlib.TextLemmas.{nil-append, cons-append, append_assoc}
use dbos_transact_rs.Prelude.{◌≡◌, refl, ap, ◌∙◌, true, false, Bool-cases, inl, inr, some, eqb}
use dbos_transact_rs.Db.Migrate.Ident.{
  sanitize_ident, replace_quotes, read_ident, read_quoted, starts_with_quote,
}

after_quote :
    (rest : String) → starts_with_quote rest ≡ false → read_quoted true rest ≡ some ("", rest)
unfolding read_quoted
after_quote String.[] h = refl
after_quote (String.◌∷◌ c s) h = rw h

abbrev quoted : String → String → String
quoted s rest = String.◌++◌ (replace_quotes s) (String.◌∷◌ "\"" rest)

read-quoted :
    (s rest : String)
    → starts_with_quote rest ≡ false
    → read_quoted false (quoted s rest) ≡ some (s, rest)
unfolding read_quoted replace_quotes
read-quoted String.[] rest h = rw (nil-append (String.◌∷◌ "\"" rest)) (after_quote rest h)
read-quoted (String.◌∷◌ c s) rest h = elim (Bool-cases (eqb (code c) b'"')) [
  | inl e ↦ rw e (
      rw (cons-append c (String.◌∷◌ c (replace_quotes s)) (String.◌∷◌ "\"" rest)) (
        rw (cons-append c (replace_quotes s) (String.◌∷◌ "\"" rest))
          (rw e (rw (read-quoted s rest h)))))
  | inr e ↦ rw e (
      rw (cons-append c (replace_quotes s) (String.◌∷◌ "\"" rest))
        (rw e (rw (read-quoted s rest h))))
]

one_quote : (rest : String) → String.◌++◌ "\"" rest ≡ String.◌∷◌ "\"" rest
one_quote rest = cons-append "\"" "" rest ∙ ap (λ t. String.◌∷◌ "\"" t) (nil-append rest)

sanitized_front :
    (ident rest : String)
    → String.◌++◌ (sanitize_ident ident) rest ≡ String.◌∷◌ "\"" (quoted ident rest)
unfolding sanitize_ident
sanitized_front ident rest =
    append_assoc "\"" (String.◌++◌ (replace_quotes ident) "\"") rest
    ∙ one_quote (String.◌++◌ (String.◌++◌ (replace_quotes ident) "\"") rest)
    ∙ ap (λ t. String.◌∷◌ "\"" t)
        (append_assoc (replace_quotes ident) "\"" rest
          ∙ ap (λ t. String.◌++◌ (replace_quotes ident) t) (one_quote rest))

-- SQL reads the name back from what `sanitize_ident` writes, and goes on right behind it.
pub read_ident-sanitize_ident :
    (ident rest : String)
    → starts_with_quote rest ≡ false
    → read_ident (String.◌++◌ (sanitize_ident ident) rest) ≡ some (ident, rest)
unfolding read_ident
read_ident-sanitize_ident ident rest h = rw (sanitized_front ident rest) (read-quoted ident rest h)
