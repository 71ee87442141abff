-- ===== src/Api/Admin.antt =====
-- src/web/admin-auth.js: the credentials of the admin portal. The decoding of base64 is a parameter;
-- texts are lists of character codes.
use nvidia_omoda.Prelude.{
  ℕ, String, Bool, true, false, not, ◌&&◌, ◌||◌, Option, none, some, List, [], ◌∷◌, ◌++◌, ◌≡◌, refl,
  if◌then◌else◌, get_or, eqb, Option-cases, Bool-cases, inl, inr, arith,
}
use nvidia_omoda.Prelude.Rx.{codes, starts_with, trim_left, trim_right}
use nvidia_omoda.Api.Auth.{skip}

-- `safeEqual`, on the codes.
unfoldable pub same_codes : List ℕ → List ℕ → Bool
same_codes [] [] = true
same_codes [] (d ∷ t) = false
same_codes (c ∷ s) [] = false
same_codes (c ∷ s) (d ∷ t) = eqb c d && same_codes s t

-- The part before the first colon and the part after it; `none` without a colon.
unfoldable pub split_colon : List ℕ → Option (List ℕ × List ℕ)
split_colon [] = none
split_colon (c ∷ s) =
    let rest = split_colon s in
    if eqb c b':' then some ([], s) else elim rest [ none ↦ none | some p ↦ some (c ∷ p.0, p.1) ]

-- `checkAdminAuth`: the user that is let in.
unfoldable pub check_admin_auth :
    (String → List ℕ) → List ℕ → List ℕ → Option String → Option (List ℕ)
unfolding starts_with skip trim_left trim_right split_colon same_codes
check_admin_auth decode user pass authorization =
    let auth = get_or authorization "" in
    if not (starts_with (codes auth) (codes "Basic "))
    then none
    else elim (split_colon (decode (trim_right (trim_left (skip 6 auth))))) [
      | none ↦ none
      | some p ↦ if not (same_codes p.0 user) || not (same_codes p.1 pass) then none else some p.0
    ]

split_colon_lem :
    (s : List ℕ) (p : List ℕ × List ℕ) → split_colon s ≡ some p → s ≡ p.0 ++ b':' ∷ p.1
unfolding split_colon
split_colon_lem [] p h = cc
split_colon_lem (c ∷ s) p h = elim (Bool-cases (eqb c b':')) [
  | inl e ↦
      let hit : ([], s) ≡ p = ground (arith, h, e) in
      let colon : c ≡ b':' = ground (arith, e) in cc (hit, colon)
  | inr n ↦ elim (Option-cases (split_colon s)) [
    | inl e ↦ absurd (ground (arith, h, n, e))
    | inr (q, e) ↦
        let hit : (c ∷ q.0, q.1) ≡ p = ground (arith, h, n, e) in
        let inner : s ≡ q.0 ++ b':' ∷ q.1 = split_colon_lem s q e in cc (hit, inner)
  ]
]

same_codes_eq : (s t : List ℕ) → same_codes s t ≡ true → s ≡ t
unfolding same_codes
same_codes_eq [] [] h = refl
same_codes_eq [] (d ∷ t) h = cc
same_codes_eq (c ∷ s) [] h = cc
same_codes_eq (c ∷ s) (d ∷ t) h =
    let same : c ≡ d = ground (arith, h) in
    let rest : s ≡ t = same_codes_eq s t (ground (arith, h)) in cc (same, rest)

-- Who is let in to the portal has sent the user's name and the password, with a colon between them.
pub admin_credentials :
    (decode : String → List ℕ) (user pass : List ℕ) (authorization : Option String) (got : List ℕ)
    → check_admin_auth decode user pass authorization ≡ some got
    → (got ≡ user)
      × (decode (trim_right (trim_left (skip 6 (get_or authorization "")))) ≡ user ++ b':' ∷ pass)
unfolding check_admin_auth
admin_credentials decode user pass authorization got h = go (split_colon sent) refl
  where
    sent : List ℕ
    sent = decode (trim_right (trim_left (skip 6 (get_or authorization ""))))

    go :
        (o : Option (List ℕ × List ℕ))
        → split_colon sent ≡ o
        → (got ≡ user) × (sent ≡ user ++ b':' ∷ pass)
    go none e = absurd (ground (arith, h, e))
    go (some p) e =
        let whose : p.0 ≡ got = ground (arith, h, e) in
        let name : p.0 ≡ user = same_codes_eq p.0 user (ground (arith, h, e)) in
        let word : p.1 ≡ pass = same_codes_eq p.1 pass (ground (arith, h, e)) in
        let joined : sent ≡ p.0 ++ b':' ∷ p.1 = split_colon_lem sent p e in
        (cc (whose, name), cc (joined, name, word))
