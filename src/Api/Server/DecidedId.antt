-- ===== src/Api/Server/DecidedId.antt =====
-- The path of a request to src/api/server.js that decides an action, and the right it needs.
use nvidia_omoda.Prelude.{
  ℕ, String, true, false, Option, none, some, List, [], ◌∷◌, ◌==◌, ◌≡◌, inl, inr, refl, sym, ap,
  ◌∙◌, Bool-cases, eqb, arith, eq_iff, eq_refl,
}
use Prim.Native.Char.{code}
use text.Mathlib.TextEquality.{Char-path}
use nvidia_omoda.Prelude.Rx.{codes}
use nvidia_omoda.Api.Server.Path.{
  rest_after, split_slash, ends_with, below_intents, under_intents, decided_id,
}
use nvidia_omoda.Api.Server.Serve.{Request}
use nvidia_omoda.Api.Server.{scope_for}

-- The scope that a path to the decisions of an intent needs.
rest_after-ends_with :
    (p : List ℕ) (path rest q : String)
    → rest_after p path ≡ some rest
    → ends_with rest q ≡ true
    → ends_with path q ≡ true
unfolding rest_after ends_with
rest_after-ends_with [] path rest q e h = let same : path ≡ rest = ground (arith, e) in rw same h
rest_after-ends_with (c ∷ p) String.[] rest q e h = cc
rest_after-ends_with (c ∷ p) (String.◌∷◌ d s) rest q e h =
    let ih = rest_after-ends_with p s rest q (ground (arith, e)) h in ground (arith, ih)

split_slash-ends_with :
    (s after : String) → (split_slash s).1 ≡ some after → ends_with s (String.◌∷◌ "/" after) ≡ true
unfolding split_slash ends_with
split_slash-ends_with String.[] after e = cc
split_slash-ends_with (String.◌∷◌ c s) after e = elim (Bool-cases (eqb (code c) b'/')) [
  | inl slash ↦
      let same : s ≡ after = ground (arith, e, slash) in
      let is_slash : c ≡ "/" = Char-path c "/" (ground (arith, slash)) in
      rw same (rw is_slash (ground (arith, eq_refl (String.◌∷◌ "/" after))))
  | inr other ↦
      let ih = split_slash-ends_with s after (ground (arith, e, other)) in ground (arith, ih)
]

-- A path that leads to the decisions of an intent.
pub decided_id_lem :
    (path id : String)
    → decided_id path ≡ some id
    → (rest : String) × (below_intents path ≡ some rest) × ((split_slash rest).1 ≡ some "decisions")
unfolding decided_id
decided_id_lem path id e = go (below_intents path) refl
  where
    below :
        (rest : String)
        → below_intents path ≡ some rest
        → (o : Option String) → (split_slash rest).1 ≡ o
        → (rest : String) × (below_intents path ≡ some rest)
          × ((split_slash rest).1 ≡ some "decisions")
    below rest f none g = absurd (ground (arith, e, f, g))
    below rest f (some after) g =
        let named : after ≡ "decisions" = ground (arith, e, f, g, eq_iff after "decisions") in
        (rest, f, g ∙ ap some named)

    go :
        (o : Option String)
        → below_intents path ≡ o
        → (rest : String) × (below_intents path ≡ some rest)
          × ((split_slash rest).1 ≡ some "decisions")
    go none f = absurd (ground (arith, e, f))
    go (some rest) f = below rest f (split_slash rest).1 refl

root_above : below_intents "/v1/intents" ≡ none
unfolding rest_after
root_above = refl

pub not_root :
    (path rest : String) → below_intents path ≡ some rest → (path == "/v1/intents") ≡ false
not_root path rest e = elim (Bool-cases (path == "/v1/intents")) [
  | inl root ↦
      let same : path ≡ "/v1/intents" = (eq_iff path "/v1/intents").0 root in
      let gone : none ≡ some rest = sym root_above ∙ sym (ap below_intents same) ∙ e in cc gone
  | inr other ↦ other
]

pub decided_id-needs :
    (req : Request) (id : String)
    → decided_id req.path ≡ some id
    → scope_for req ≡ some "intent:decide"
unfolding scope_for under_intents
decided_id-needs req id e =
    let (rest, below, split) = decided_id_lem req.path id e in
    let ends : ends_with req.path "/decisions" ≡ true =
      rest_after-ends_with (codes "/v1/intents/") req.path rest "/decisions" below
        (split_slash-ends_with rest "decisions" split) in
    ground (arith, below, ends, not_root req.path rest below)
