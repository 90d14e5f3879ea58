-- ===== src/Serialize/Numbers.antt =====
-- `str::parse` at i64, u64 and usize, as serialize.rs calls it.
use Prim.Native.Char.{Char, code}
use Prim.Native.String.{String}
use dbos_transact_rs.Prelude.{
  ℕ, zero, suc, ◌≡◌, refl, ◌+◌, ◌-◌, ◌*◌, ◌^◌, Bool, ◌&&◌, Option, none, some, ltb, leb, eqb,
  if◌then◌else◌,
}
use dbos_transact_rs.Prelude.Int.{ℤ, pos, negsuc}

is_digit : Char → Bool
is_digit c = leb b'0' (code c) && leb (code c) b'9'

-- The number that the digits so far and those that follow stand for.
digits : ℕ → String → Option ℕ
unfolding is_digit
digits n String.[] = some n
digits n (String.◌∷◌ c s) =
    let rest = digits (n * 10 + (code c - b'0')) s in if is_digit c then rest else none

-- At least one digit.
unsigned : String → Option ℕ
unfolding digits
unsigned String.[] = none
unsigned (String.◌∷◌ c s) = digits 0 (String.◌∷◌ c s)

-- A leading `+` is skipped.
magnitude : String → Option ℕ
unfolding unsigned
magnitude String.[] = none
magnitude (String.◌∷◌ c s) = if eqb (code c) b'+' then unsigned s else unsigned (String.◌∷◌ c s)

below : ℕ → Option ℕ → Option ℕ
below bound none = none
below bound (some n) = if ltb n bound then some n else none

-- `parse::<u64>()`, and `parse::<usize>()` of a 64-bit target.
unfoldable pub parse_u64 : String → Option ℕ
unfolding below magnitude
parse_u64 s = below (2 ^ 64) (magnitude s)

as_negative : ℕ → ℤ
as_negative zero = pos 0
as_negative (suc n) = negsuc n

negative : Option ℕ → Option ℤ
unfolding as_negative
negative none = none
negative (some n) = some (as_negative n)

positive : Option ℕ → Option ℤ
positive none = none
positive (some n) = some (pos n)

-- `parse::<i64>()`
unfoldable pub parse_i64 : String → Option ℤ
unfolding below magnitude unsigned negative positive
parse_i64 String.[] = none
parse_i64 (String.◌∷◌ c s) =
    if eqb (code c) b'-'
    then negative (below (2 ^ 63 + 1) (unsigned s))
    else positive (below (2 ^ 63) (magnitude (String.◌∷◌ c s)))

least : parse_i64 "-9223372036854775808" ≡ some (negsuc 9223372036854775807)
unfolding parse_i64 below magnitude unsigned negative as_negative digits
least = refl

over : parse_i64 "9223372036854775808" ≡ none
unfolding parse_i64 below magnitude unsigned positive digits
over = refl

plus : parse_u64 "+0042" ≡ some 42
unfolding parse_u64 below magnitude digits
plus = refl
