-- ===== src/Db/Migrate/Render.antt =====
-- db/migrate.rs: the templates of the migration files. The argument of `render` is a closure with
-- its own state, which each `%s` calls.
use Prim.Native.Char.{Char, code}
use Prim.Native.String
use Prim.Native.String.{String}
use dbos_transact_rs.Prelude.{Bool, true, false, eqb, if◌then◌else◌}

module _ {S : Type 0} (arg : S → String × S) where
  -- The loop over the characters. The flag is set when the character before was a `%`, of which the
  -- meaning is open until the next character is seen.
  unfoldable pub render_from : Bool → String → S → String
  render_from false String.[] state = ""
  render_from true String.[] state = "%"
  render_from false (String.◌∷◌ c rest) state =
      let after = render_from true rest state in
      let out = render_from false rest state in
      if eqb (code c) b'%' then after else String.◌∷◌ c out
  render_from true (String.◌∷◌ c rest) state =
      let out = render_from false rest state in
      let filled = render_from false rest (arg state).1 in
      if eqb (code c) b'%'
      then String.◌∷◌ "%" out
      else if eqb (code c) b's'
      then String.◌++◌ (arg state).0 filled
      else String.◌∷◌ "%" (String.◌∷◌ c out)

  unfoldable pub render : String → S → String
  unfolding render_from
  render template state = render_from false template state

-- Every `%s` becomes `schema`.
unfoldable pub render_uniform : String → String → String
render_uniform template schema = render (λ (_ : Unit {0}). (schema, tt)) template tt

abbrev pub first_then : String → String → Bool → String × Bool
first_then first rest true = (rest, true)
first_then first rest false = (first, true)

-- The first `%s` becomes `first`, every later one `rest`. The state says whether `first` is used.
unfoldable pub render_first_rest : String → String → String → String
render_first_rest template first rest = render (first_then first rest) template false

-- What a template is made of: a character other than `%`, a `%` written twice, and a place.
pub data Piece : Type 0 where
  plain : Char → Piece
  percent place : Piece
