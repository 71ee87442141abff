-- ===== src/Policy/Glob.antt =====
-- `pathMatches` of src/policy/envelope.js: a glob becomes a regular expression. The escaping there
-- leaves out the question mark, which stays a quantifier of the expression.
pub mod Literal
use nvidia_omoda.Prelude.{
  ℕ, String, Bool, true, false, not, ◌&&◌, Option, none, some, List, [], ◌∷◌, eqb, if◌then◌else◌,
}
use mathlib.Core.Option
use nvidia_omoda.Prelude.Rx.{Item, one, maybe, many, codes, accepts, dot}

-- A piece of the expression: `.*`, `[^/]*`, a character, or a question mark.
pub data Piece : Type 0 where
  deep flat mark : Piece
  char : ℕ → Piece

-- The placeholder of the source is the character 0.
abbrev pub piece : ℕ → Piece
piece c = if eqb c b'*' then flat else if eqb c 0 then deep else if eqb c b'?' then mark else char c

abbrev pub two_stars : ℕ → ℕ → Bool
two_stars c d = eqb c b'*' && eqb d b'*'

unfoldable pub pieces : List ℕ → List Piece
pieces [] = []
pieces (c ∷ []) = piece c ∷ []
pieces (c ∷ d ∷ s) = elim (two_stars c d) [
  | true ↦ deep ∷ pieces s
  | false ↦ piece c ∷ pieces (d ∷ s)
]

abbrev pub not_slash : ℕ → Bool
not_slash c = not (eqb c b'/')

abbrev pub prepend : Item → Option (List Item) → Option (List Item)
prepend i none = none
prepend i (some l) = some (i ∷ l)

-- The expression; `none` is a SyntaxError, a quantifier with nothing to repeat.
unfoldable pub compile_pieces : List Piece → Option (List Item)
compile_pieces [] = some []
compile_pieces (mark ∷ r) = none
compile_pieces (char c ∷ mark ∷ mark ∷ r) = prepend (maybe (λ d. eqb d c)) (compile_pieces r)
compile_pieces (char c ∷ mark ∷ r) = prepend (maybe (λ d. eqb d c)) (compile_pieces r)
compile_pieces (char c ∷ r) = prepend (one (λ d. eqb d c)) (compile_pieces r)
compile_pieces (deep ∷ mark ∷ r) = prepend (many dot) (compile_pieces r)
compile_pieces (deep ∷ r) = prepend (many dot) (compile_pieces r)
compile_pieces (flat ∷ mark ∷ r) = prepend (many not_slash) (compile_pieces r)
compile_pieces (flat ∷ r) = prepend (many not_slash) (compile_pieces r)

abbrev pub test_all : Option (List Item) → List ℕ → Option Bool
test_all none s = none
test_all (some l) s = some (accepts l s)

unfoldable pub path_matches : String → String → Option Bool
unfolding pieces compile_pieces accepts
path_matches pattern path = test_all (compile_pieces (pieces (codes pattern))) (codes path)
