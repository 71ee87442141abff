-- ===== src/Prelude/Split.antt =====
-- `s.split(c)` and `l.join(c)` for a separator of one character.
use Prim.Native.String.{String}
use Prim.Native.String
use Prim.Native.Char.{Char, code}
use mathlib.Core.Path.{◌≡◌, refl, ap, ◌∙◌}
use mathlib.Core.Bool.{Bool, true, not, ◌&&◌}
use mathlib.Core.List.{List, [], ◌∷◌}
use native.Mathlib.Omega.{arith}
use nvidia_omoda.Prelude.Tests.{eqb, if◌then◌else◌}
use nvidia_omoda.Prelude.Lists.{All}

abbrev push_char : Char → List String → List String
push_char c [] = String.◌∷◌ c "" ∷ []
push_char c (s ∷ l) = String.◌∷◌ c s ∷ l

unfoldable pub split_on : Char → String → List String
split_on sep String.[] = "" ∷ []
split_on sep (String.◌∷◌ c s) =
    let rest = split_on sep s in if eqb (code c) (code sep) then "" ∷ rest else push_char c rest

unfoldable pub free_of : Char → String → Bool
free_of sep String.[] = true
free_of sep (String.◌∷◌ c s) = not (eqb (code c) (code sep)) && free_of sep s

abbrev behind_sep : Char → String → String
behind_sep sep t = String.◌++◌ (String.◌∷◌ sep "") t

unfoldable pub join_on : Char → List String → String
join_on sep [] = ""
join_on sep (s ∷ []) = s
join_on sep (s ∷ t ∷ l) = String.◌++◌ s (behind_sep sep (join_on sep (t ∷ l)))

split_step :
    (sep c : Char) (s t : String)
    → split_on sep (String.◌++◌ (String.◌∷◌ c s) t) ≡ (
        if eqb (code c) (code sep)
        then "" ∷ split_on sep (String.◌++◌ s t)
        else push_char c (split_on sep (String.◌++◌ s t)))
unfolding split_on
split_step sep c s t = λ i. split_on sep (String.append.cons c s t i)

same_char : (c : Char) → eqb (code c) (code c) ≡ true
same_char c = ground arith

-- A text without the separator comes off the front as it is.
pub split_on-front :
    (sep : Char) (s t : String)
    → free_of sep s ≡ true
    → split_on sep (String.◌++◌ s (behind_sep sep t)) ≡ s ∷ split_on sep t
unfolding split_on free_of
split_on-front sep String.[] t h =
    ap (split_on sep) (String.append.nil (behind_sep sep t))
    ∙ (split_step sep sep "" t
        ∙ rw (same_char sep) (ap (λ x. "" ∷ split_on sep x) (String.append.nil t)))
split_on-front sep (String.◌∷◌ c s) t h =
    split_step sep c s (behind_sep sep t)
    ∙ rw (split_on-front sep s t (ground (arith, h))) (ground (arith, h))

pub split_on-free_of : (sep : Char) (s : String) → free_of sep s ≡ true → split_on sep s ≡ s ∷ []
unfolding split_on free_of
split_on-free_of sep String.[] h = refl
split_on-free_of sep (String.◌∷◌ c s) h =
    rw (split_on-free_of sep s (ground (arith, h))) (ground (arith, h))

-- Joining and then splitting gives the texts back, if there are any and none has the separator.
pub split_on-join_on :
    (sep : Char) (s : String) (l : List String)
    → free_of sep s ≡ true
    → All (λ t. free_of sep t ≡ true) l
    → split_on sep (join_on sep (s ∷ l)) ≡ s ∷ l
unfolding join_on
split_on-join_on sep s [] h k = split_on-free_of sep s h
split_on-join_on sep s (t ∷ l) h k =
    split_on-front sep s (join_on sep (t ∷ l)) h
    ∙ ap (λ x. s ∷ x) (split_on-join_on sep t l k.0 k.1)
