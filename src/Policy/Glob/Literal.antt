-- ===== src/Policy/Glob/Literal.antt =====
-- What a glob without a question mark means, and that a path without wildcards matches itself alone.
use nvidia_omoda.Prelude.{
  ℕ, String, Bool, true, false, not, ◌&&◌, ◌||◌, some, List, [], ◌∷◌, eqb, ◌≡◌, refl, ◌↔◌, arith,
  Bool-cases, ap, sym, ◌∙◌, inl, inr, ◌==◌, eq_iff,
}
use nvidia_omoda.Prelude.Rx.{
  codes-injective, Item, one, many, Matches, accepts_sound, accepts_complete, codes, accepts, dot,
}
use nvidia_omoda.Policy.Glob.{
  Piece, deep, flat, mark, char, pieces, not_slash, compile_pieces, path_matches,
}

-- The meaning of a glob, piece by piece.
abbrev pub item_of : Piece → Item
item_of deep = many dot
item_of flat = many not_slash
item_of mark = many dot
item_of (char c) = one (λ d. eqb d c)

abbrev pub items_of : List Piece → List Item
items_of [] = []
items_of (p ∷ r) = item_of p ∷ items_of r

abbrev pub no_mark : List Piece → Bool
no_mark [] = true
no_mark (mark ∷ r) = false
no_mark (p ∷ r) = no_mark r

compile_no_mark : (r : List Piece) → no_mark r ≡ true → compile_pieces r ≡ some (items_of r)
unfolding compile_pieces
compile_no_mark [] h = refl
compile_no_mark (mark ∷ r) h = cc
compile_no_mark (char c ∷ []) h = refl
compile_no_mark (char c ∷ mark ∷ r) h = cc
compile_no_mark (char c ∷ deep ∷ r) h = rw (compile_no_mark (deep ∷ r) h)
compile_no_mark (char c ∷ flat ∷ r) h = rw (compile_no_mark (flat ∷ r) h)
compile_no_mark (char c ∷ char d ∷ r) h = rw (compile_no_mark (char d ∷ r) h)
compile_no_mark (deep ∷ []) h = refl
compile_no_mark (deep ∷ mark ∷ r) h = cc
compile_no_mark (deep ∷ deep ∷ r) h = rw (compile_no_mark (deep ∷ r) h)
compile_no_mark (deep ∷ flat ∷ r) h = rw (compile_no_mark (flat ∷ r) h)
compile_no_mark (deep ∷ char d ∷ r) h = rw (compile_no_mark (char d ∷ r) h)
compile_no_mark (flat ∷ []) h = refl
compile_no_mark (flat ∷ mark ∷ r) h = cc
compile_no_mark (flat ∷ deep ∷ r) h = rw (compile_no_mark (deep ∷ r) h)
compile_no_mark (flat ∷ flat ∷ r) h = rw (compile_no_mark (flat ∷ r) h)
compile_no_mark (flat ∷ char d ∷ r) h = rw (compile_no_mark (char d ∷ r) h)

abbrev pub is_plain : ℕ → Bool
is_plain c = not (eqb c b'*' || eqb c 0 || eqb c b'?')

abbrev pub is_literal : List ℕ → Bool
is_literal [] = true
is_literal (c ∷ s) = is_plain c && is_literal s

abbrev chars : List ℕ → List Piece
chars [] = []
chars (c ∷ s) = char c ∷ chars s

pieces_literal : (s : List ℕ) → is_literal s ≡ true → pieces s ≡ chars s
unfolding pieces
pieces_literal [] h = refl
pieces_literal (c ∷ []) h = ground arith
pieces_literal (c ∷ d ∷ s) h = ground (arith, pieces_literal (d ∷ s))

no_mark-chars : (s : List ℕ) → no_mark (chars s) ≡ true
no_mark-chars [] = refl
no_mark-chars (c ∷ s) = no_mark-chars s

accepts-chars : (p s : List ℕ) → (accepts (items_of (chars p)) s ≡ true) ↔ (p ≡ s)
unfolding accepts
accepts-chars [] [] = ground arith
accepts-chars [] (c ∷ s) = ground arith
accepts-chars (c ∷ p) [] = ground arith
accepts-chars (c ∷ p) (d ∷ s) = ground (arith, accepts-chars p s)

-- A pattern without a question mark matches exactly the paths that its meaning describes: two stars
-- are any run of characters that are no line ends, one star any run without a slash, and every other
-- character is itself.
path_matches_iff :
    (pattern path : String)
    → no_mark (pieces (codes pattern)) ≡ true
    → (path_matches pattern path ≡ some true)
      ↔ Matches (items_of (pieces (codes pattern))) (codes path)
unfolding path_matches
path_matches_iff pattern path h =
    let r = items_of (pieces (codes pattern)) in
    rw (compile_no_mark (pieces (codes pattern)) h)
      (λ e. accepts_sound r (codes path) (cc), λ m. ap some (accepts_complete m))

-- A path without wildcards, taken for a pattern, matches itself and nothing else.
pub path_matches_literal :
    (pattern path : String)
    → is_literal (codes pattern) ≡ true
    → path_matches pattern path ≡ some (pattern == path)
unfolding path_matches
path_matches_literal pattern path h =
    rw
      (
        pieces_literal (codes pattern) h,
        compile_no_mark (chars (codes pattern)) (no_mark-chars (codes pattern)),
      )
      (ap some (same_test (accepts-chars (codes pattern) (codes path))))
  where
    same_test :
        (accepts (items_of (chars (codes pattern))) (codes path) ≡ true)
          ↔ (codes pattern ≡ codes path)
        → accepts (items_of (chars (codes pattern))) (codes path) ≡ (pattern == path)
    same_test e = elim (Bool-cases (pattern == path)) [
      | inl same ↦ e.1 (ap codes ((eq_iff pattern path).0 same)) ∙ sym same
      | inr other ↦ elim (Bool-cases (accepts (items_of (chars (codes pattern))) (codes path))) [
        | inl yes' ↦
            absurd (ground (arith, eq_iff pattern path, codes-injective pattern path (e.0 yes')))
        | inr no' ↦ no' ∙ sym other
      ]
    ]
