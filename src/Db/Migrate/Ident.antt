-- ===== src/Db/Migrate/Ident.antt =====
-- db/mod.rs: quoted identifiers.
use Prim.Native.Char.{Char, code}
use Prim.Native.String.{String}
use dbos_transact_rs.Prelude.{
  Bool, true, false, Option, none, some, [], ◌∷◌, eqb, format, if◌then◌else◌,
}

-- `ident.replace('"', "\"\"")`
unfoldable pub replace_quotes : String → String
replace_quotes String.[] = ""
replace_quotes (String.◌∷◌ c s) =
    let rest = replace_quotes s in
    if eqb (code c) b'"' then String.◌∷◌ c (String.◌∷◌ c rest) else String.◌∷◌ c rest

unfoldable pub sanitize_ident : String → String
unfolding replace_quotes
sanitize_ident ident = format ("\"" ∷ replace_quotes ident ∷ "\"" ∷ [])

-- "<schema>." in front of a table's name
unfoldable pub schema_prefix : String → String
schema_prefix schema = format (sanitize_ident schema ∷ "." ∷ [])

-- How SQL reads a quoted identifier: up to the first quote that is not doubled. The flag is set after
-- a quote inside the identifier.
abbrev pub with_char : Char → Option (String × String) → Option (String × String)
with_char c none = none
with_char c (some (s, rest)) = some (String.◌∷◌ c s, rest)

unfoldable pub read_quoted : Bool → String → Option (String × String)
read_quoted false String.[] = none
read_quoted true String.[] = some ("", "")
read_quoted false (String.◌∷◌ c s) =
    let after = read_quoted true s in
    let rest = read_quoted false s in if eqb (code c) b'"' then after else with_char c rest
read_quoted true (String.◌∷◌ c s) =
    let rest = read_quoted false s in
    if eqb (code c) b'"' then with_char c rest else some ("", String.◌∷◌ c s)

unfoldable pub read_ident : String → Option (String × String)
unfolding read_quoted
read_ident String.[] = none
read_ident (String.◌∷◌ c s) = if eqb (code c) b'"' then read_quoted false s else none

abbrev pub starts_with_quote : String → Bool
starts_with_quote String.[] = false
starts_with_quote (String.◌∷◌ c s) = eqb (code c) b'"'
