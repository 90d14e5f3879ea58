-- ===== src/Tests/Serialize/Machine.antt =====
-- A text for each JSON value that a stack machine reads back: the parameter of serialize.rs's models,
-- at which the tests run. The operations stand after their operands.
use Prim.Native.Nat.{ℕ, zero, suc}
use Prim.Native.Char.{Char, code}
use Prim.Native.String.{String}
use dbos_transact_rs.Prelude.{
  ◌≡◌, ◌≢◌, refl, sym, ◌∙◌, arith, ◌⊎◌, inl, inr, Bool, true, false, Option, none, some, List, [],
  ◌∷◌, eqb, if◌then◌else◌,
}
use dbos_transact_rs.Prelude.Int.{pos, negsuc}
use dbos_transact_rs.Serialize.Serde.{nil_marker}
use dbos_transact_rs.Serialize.Value.{
  Number, integer, float, Value, null, boolean, number, string, array, object, Elements,
  no_elements, element, Entries, empty_map, entry, canonical,
}

data Cell : Type 0 where
  value : Value → Cell
  items : Elements → Cell
  fields : Entries → Cell
  text : String → Cell
  count : ℕ → Cell

data Op : Type 0 where
  push : Cell → Op
  succ positive negative decimals close_string cons_item close_array cons_field close_object : Op
  quote skip unknown : Op

op : Char → Op
op c =
    if eqb (code c) b'n'
    then push (value null)
    else if eqb (code c) b'u'
    then skip
    else if eqb (code c) b'l'
    then skip
    else if eqb (code c) b't'
    then push (value (boolean true))
    else if eqb (code c) b'f'
    then push (value (boolean false))
    else if eqb (code c) b'0'
    then push (count 0)
    else if eqb (code c) b'+'
    then succ
    else if eqb (code c) b'p'
    then positive
    else if eqb (code c) b'm'
    then negative
    else if eqb (code c) b'd'
    then decimals
    else if eqb (code c) b'"'
    then push (text "")
    else if eqb (code c) b'!'
    then quote
    else if eqb (code c) b's'
    then close_string
    else if eqb (code c) b'['
    then push (items no_elements)
    else if eqb (code c) b','
    then cons_item
    else if eqb (code c) b']'
    then close_array
    else if eqb (code c) b'{'
    then push (fields empty_map)
    else if eqb (code c) b':'
    then cons_field
    else if eqb (code c) b'}'
    then close_object
    else unknown

step : Op → List Cell → Option (List Cell)
step (push c) st = some (c ∷ st)
step skip st = some st
step succ (count n ∷ st) = some (count (suc n) ∷ st)
step positive (count n ∷ st) = some (value (number (integer (pos n))) ∷ st)
step negative (count n ∷ st) = some (value (number (integer (negsuc n))) ∷ st)
step decimals (text s ∷ st) = some (value (number (float s)) ∷ st)
step close_string (text s ∷ st) = some (value (string s) ∷ st)
step cons_item (value v ∷ items xs ∷ st) = some (items (element v xs) ∷ st)
step close_array (items xs ∷ st) = some (value (array xs) ∷ st)
step cons_field (text k ∷ value v ∷ fields fs ∷ st) = some (fields (entry k v fs) ∷ st)
step close_object (fields fs ∷ st) = some (value (object fs) ∷ st)
step _ st = none

is_quote : Op → Bool
is_quote quote = true
is_quote _ = false

-- The character after a quote goes to the front of the text on the stack.
cons_char : Char → List Cell → Option (List Cell)
cons_char c (text s ∷ st) = some (text (String.◌∷◌ c s) ∷ st)
cons_char c st = none

-- The flag is set after a quote.
next : Bool → Char → List Cell → Option (List Cell)
unfolding op step is_quote cons_char
next true c st = cons_char c st
next false c st = if is_quote (op c) then some st else step (op c) st

quotes : Bool → Char → Bool
unfolding op is_quote
quotes true c = false
quotes false c = is_quote (op c)

run : String → Bool → Option (List Cell) → Option (List Cell)
unfolding next quotes
run String.[] q st = st
run (String.◌∷◌ c s) q none = none
run (String.◌∷◌ c s) q (some st) = run s (quotes q c) (next q c st)

write_text : String → String → String
write_text String.[] rest = String.◌∷◌ "\"" rest
write_text (String.◌∷◌ c s) rest = write_text s (String.◌∷◌ "!" (String.◌∷◌ c rest))

write_count : ℕ → String → String
write_count zero rest = String.◌∷◌ "0" rest
write_count (suc n) rest = write_count n (String.◌∷◌ "+" rest)

write_number : Number → String → String
unfolding write_text write_count
write_number (integer (pos n)) rest = write_count n (String.◌∷◌ "p" rest)
write_number (integer (negsuc n)) rest = write_count n (String.◌∷◌ "m" rest)
write_number (float s) rest = write_text s (String.◌∷◌ "d" rest)

mutual
  unfolding write_number write_text

  write : Value → String → String
  write null rest = String.◌∷◌ "n" (String.◌∷◌ "u" (String.◌∷◌ "l" (String.◌∷◌ "l" rest)))
  write (boolean true) rest = String.◌∷◌ "t" rest
  write (boolean false) rest = String.◌∷◌ "f" rest
  write (number n) rest = write_number n rest
  write (string s) rest = write_text s (String.◌∷◌ "s" rest)
  write (array xs) rest = write_items xs (String.◌∷◌ "]" rest)
  write (object fs) rest = write_fields fs (String.◌∷◌ "}" rest)

  write_items : Elements → String → String
  write_items no_elements rest = String.◌∷◌ "[" rest
  write_items (element v xs) rest = write_items xs (write v (String.◌∷◌ "," rest))

  write_fields : Entries → String → String
  write_fields empty_map rest = String.◌∷◌ "{" rest
  write_fields (entry k v fs) rest = write_fields fs (write v (write_text k (String.◌∷◌ ":" rest)))

run-write_text :
    (s rest : String) (st : List Cell)
    → run (write_text s rest) false (some st) ≡ run rest false (some (text s ∷ st))
unfolding run write_text next quotes op step cons_char is_quote
run-write_text String.[] rest st = refl
run-write_text (String.◌∷◌ c s) rest st =
    rw (run-write_text s (String.◌∷◌ "!" (String.◌∷◌ c rest)) st)

run-write_count :
    (n : ℕ) (rest : String) (st : List Cell)
    → run (write_count n rest) false (some st) ≡ run rest false (some (count n ∷ st))
unfolding run write_count next quotes op step cons_char is_quote
run-write_count zero rest st = refl
run-write_count (suc n) rest st = rw (run-write_count n (String.◌∷◌ "+" rest) st)

run-write_number :
    (n : Number) (rest : String) (st : List Cell)
    → run (write_number n rest) false (some st) ≡ run rest false (some (value (number n) ∷ st))
unfolding run write_number next quotes op step cons_char is_quote
run-write_number (integer (pos n)) rest st = rw (run-write_count n (String.◌∷◌ "p" rest) st)
run-write_number (integer (negsuc n)) rest st = rw (run-write_count n (String.◌∷◌ "m" rest) st)
run-write_number (float s) rest st = rw (run-write_text s (String.◌∷◌ "d" rest) st)

mutual
  unfolding run write next quotes op step cons_char is_quote

  run-write :
      (v : Value) (rest : String) (st : List Cell)
      → run (write v rest) false (some st) ≡ run rest false (some (value v ∷ st))
  run-write null rest st = refl
  run-write (boolean true) rest st = refl
  run-write (boolean false) rest st = refl
  run-write (number n) rest st = run-write_number n rest st
  run-write (string s) rest st = rw (run-write_text s (String.◌∷◌ "s" rest) st)
  run-write (array xs) rest st = rw (run-write_items xs (String.◌∷◌ "]" rest) st)
  run-write (object fs) rest st = rw (run-write_fields fs (String.◌∷◌ "}" rest) st)

  run-write_items :
      (xs : Elements) (rest : String) (st : List Cell)
      → run (write_items xs rest) false (some st) ≡ run rest false (some (items xs ∷ st))
  run-write_items no_elements rest st = refl
  run-write_items (element v xs) rest st =
      rw (run-write_items xs (write v (String.◌∷◌ "," rest)) st)
        (rw (run-write v (String.◌∷◌ "," rest) (items xs ∷ st)))

  run-write_fields :
      (fs : Entries) (rest : String) (st : List Cell)
      → run (write_fields fs rest) false (some st) ≡ run rest false (some (fields fs ∷ st))
  run-write_fields empty_map rest st = refl
  run-write_fields (entry k v fs) rest st =
      rw (run-write_fields fs (write v (write_text k (String.◌∷◌ ":" rest))) st) (
        rw (run-write v (write_text k (String.◌∷◌ ":" rest)) (fields fs ∷ st))
          (rw (run-write_text k (String.◌∷◌ ":" rest) (value v ∷ fields fs ∷ st))))

-- One value is left.
only : Option (List Cell) → String ⊎ Value
only (some (value v ∷ [])) = inr v
only _ = inl "expected value"

unfoldable pub print : Value → String
unfolding write
print v = write v ""

pub parse : String → String ⊎ Value
unfolding run only
parse s = only (run s false (some []))

parse-print : (v : Value) → parse (print v) ≡ inr v
unfolding parse print run only
parse-print v = rw (run-write v "" [])

abbrev canonical_of : String ⊎ Value → String ⊎ Value
canonical_of (inl e) = inl e
canonical_of (inr v) = inr (canonical v)

pub parse_canonical : String → String ⊎ Value
parse_canonical s = canonical_of (parse s)

pub parse_canonical-print : (v : Value) → parse_canonical (print v) ≡ inr (canonical v)
unfolding parse_canonical
parse_canonical-print v = rw (parse-print v)

pub parse_canonical_null : parse_canonical "null" ≡ inr null
unfolding parse_canonical parse run next quotes op step is_quote only canonical
parse_canonical_null = refl

parse_canonical_empty : parse_canonical "" ≡ inl "expected value"
unfolding parse_canonical parse run only
parse_canonical_empty = refl

parse_canonical_marker : parse_canonical nil_marker ≡ inl "expected value"
unfolding parse_canonical parse run next quotes op step is_quote only
parse_canonical_marker = refl

right_not_left : (e : String) (v : Value) → ◌≢◌ {A = String ⊎ Value} (inl e) (inr v)
right_not_left e v p = absurd (ground (arith, p))

pub not_parsed_empty : (v : Value) → parse_canonical "" ≢ inr v
not_parsed_empty v p = right_not_left "expected value" v (sym parse_canonical_empty ∙ p)

pub not_parsed_marker : (v : Value) → parse_canonical nil_marker ≢ inr v
not_parsed_marker v p = right_not_left "expected value" v (sym parse_canonical_marker ∙ p)
