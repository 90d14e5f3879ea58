-- ===== src/Db/Migrate/Rendering.antt =====
-- What rendering makes of a template, by the pieces that it is made of.
use Prim.Native.Char.{code}
use Prim.Native.String
use Prim.Native.String.{String}
use dbos_transact_rs.Prelude.{ℕ, zero, suc, ◌≡◌, refl, ap, Bool, true, false, List, [], ◌∷◌, eqb}
use dbos_transact_rs.Db.Migrate.Render.{
  Piece, plain, percent, place, render, render_from, render_uniform, render_first_rest, first_then,
}

-- The template's text: a percent sign is written twice, a place as `%s`.
unfoldable pub template_of : List Piece → String
template_of [] = ""
template_of (plain c ∷ ps) = String.◌∷◌ c (template_of ps)
template_of (percent ∷ ps) = String.◌∷◌ "%" (String.◌∷◌ "%" (template_of ps))
template_of (place ∷ ps) = String.◌∷◌ "%" (String.◌∷◌ "s" (template_of ps))

-- The pieces with the places filled in turn from the texts of a stream.
unfoldable pub fill : (ℕ → String) → ℕ → List Piece → String
fill texts n [] = ""
fill texts n (plain c ∷ ps) = String.◌∷◌ c (fill texts n ps)
fill texts n (percent ∷ ps) = String.◌∷◌ "%" (fill texts n ps)
fill texts n (place ∷ ps) = String.◌++◌ (texts n) (fill texts (suc n) ps)

-- The plain characters are not percent signs.
abbrev pub IsTemplate : List Piece → Type 0
IsTemplate [] = Unit
IsTemplate (plain c ∷ ps) = (eqb (code c) b'%' ≡ false) × IsTemplate ps
IsTemplate (percent ∷ ps) = IsTemplate ps
IsTemplate (place ∷ ps) = IsTemplate ps

abbrev pub first_or : String → String → ℕ → String
first_or first rest zero = first
first_or first rest (suc n) = rest

-- A closure whose states give the texts of the stream.
module _ {S : Type 0} (arg : S → String × S) (texts : ℕ → String) (state : ℕ → S)
    (gives : (n : ℕ) → arg (state n) ≡ (texts n, state (suc n))) where
  render-template_of :
      (ps : List Piece) (n : ℕ)
      → IsTemplate ps
      → render_from arg false (template_of ps) (state n) ≡ fill texts n ps
  unfolding render_from template_of fill
  render-template_of [] n h = refl
  render-template_of (plain c ∷ ps) n h =
      rw (h.0) (ap (λ t. String.◌∷◌ c t) (render-template_of ps n h.1))
  render-template_of (percent ∷ ps) n h = ap (λ t. String.◌∷◌ "%" t) (render-template_of ps n h)
  render-template_of (place ∷ ps) n h =
      rw (gives n) (ap (λ t. String.◌++◌ (texts n) t) (render-template_of ps (suc n) h))

later_state : (n : ℕ) → Bool
later_state zero = false
later_state (suc n) = true

first_gives :
    (first rest : String) (n : ℕ)
    → first_then first rest (later_state n) ≡ (first_or first rest n, later_state (suc n))
unfolding later_state
first_gives first rest zero = refl
first_gives first rest (suc n) = refl

-- Rendering undoes the template's escapes and fills the places: each by the schema, or the first one
-- by its own text.
pub render-pieces :
    (ps : List Piece) (schema first rest : String)
    → IsTemplate ps
    → (render_uniform (template_of ps) schema ≡ fill (λ _. schema) 0 ps)
      × (render_first_rest (template_of ps) first rest ≡ fill (first_or first rest) 0 ps)
unfolding render_uniform render_first_rest render later_state
render-pieces ps schema first rest h = (
  render-template_of (λ (_ : Unit {0}). (schema, tt)) (λ _. schema) (λ _. tt) (λ _. refl) ps 0 h,
  render-template_of (first_then first rest) (first_or first rest) later_state
      (first_gives first rest) ps 0 h,
)
