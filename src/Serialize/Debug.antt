-- ===== src/Serialize/Debug.antt =====
-- `{:?}` of a text: quotes around it, and the quote, the backslash and the control characters that
-- have a letter escaped. Other characters that do not print are not escaped here.
use Prim.Native.Char.{Char, code}
use Prim.Native.String
use Prim.Native.String.{String}
use dbos_transact_rs.Prelude.{[], ◌∷◌, eqb, format, if◌then◌else◌}

escape : Char → String → String
escape c rest =
    if eqb (code c) 34
    then String.◌++◌ "\\\"" rest
    else if eqb (code c) 92
    then String.◌++◌ "\\\\" rest
    else if eqb (code c) 10
    then String.◌++◌ "\\n" rest
    else if eqb (code c) 13
    then String.◌++◌ "\\r" rest
    else if eqb (code c) 9
    then String.◌++◌ "\\t" rest
    else if eqb (code c) 0
    then String.◌++◌ "\\0" rest
    else String.◌∷◌ c rest

escaped : String → String
unfolding escape
escaped String.[] = ""
escaped (String.◌∷◌ c s) = escape c (escaped s)

unfoldable pub debug : String → String
unfolding escaped
debug s = format ("\"" ∷ escaped s ∷ "\"" ∷ [])
