-- ===== src/Prelude/Chars.antt =====
-- Characters as Rust's `char` classifies them.
use Prim.Native.Nat.{◌-◌}
use Prim.Native.Char.{Char, code}
use Prim.Native.String.{String}
use mathlib.Core.Bool.{Bool, ◌&&◌, ◌||◌}
use text.Mathlib.Text.{char_at?}
use dbos_transact_rs.Prelude.Tests.{leb, eqb, get_or, if◌then◌else◌}

-- `char::is_whitespace`, which `trim` takes off.
unfoldable pub is_white : Char → Bool
is_white ch =
    let c = code ch in
    (leb 9 c && leb c 13)
    || eqb c 32
    || eqb c 133
    || eqb c 160
    || eqb c 5760
    || (leb 8192 c && leb c 8202)
    || eqb c 8232
    || eqb c 8233
    || eqb c 8239
    || eqb c 8287
    || eqb c 12288

abbrev pub is_upper : Char → Bool
is_upper c = leb b'A' (code c) && leb (code c) b'Z'

-- `char::is_ascii_alphabetic`
unfoldable pub is_letter : Char → Bool
is_letter c = is_upper c || (leb b'a' (code c) && leb (code c) b'z')

-- `char::is_ascii_alphanumeric`
unfoldable pub is_letter_or_digit : Char → Bool
unfolding is_letter
is_letter_or_digit c = is_letter c || (leb b'0' (code c) && leb (code c) b'9')

-- `char::to_ascii_lowercase`
unfoldable pub lower : Char → Char
lower c = if is_upper c then get_or (char_at? "abcdefghijklmnopqrstuvwxyz" (code c - b'A')) c else c

-- `str::to_ascii_lowercase`
unfoldable pub to_ascii_lowercase : String → String
to_ascii_lowercase String.[] = ""
to_ascii_lowercase (String.◌∷◌ c s) = String.◌∷◌ (lower c) (to_ascii_lowercase s)

-- `str::trim_start`
unfoldable pub trim_start : String → String
trim_start String.[] = ""
trim_start (String.◌∷◌ c s) = let rest = trim_start s in if is_white c then rest else String.◌∷◌ c s
