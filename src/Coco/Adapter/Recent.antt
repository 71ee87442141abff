-- ===== src/Coco/Adapter/Recent.antt =====
-- What src/coco/adapter.js keeps of a camera.
use nvidia_omoda.Prelude.{
  ℕ, zero, suc, ◌-◌, ◌≤◌, ◌<◌, String, true, false, none, some, List, [], ◌∷◌, ◌++◌, ◌==◌, ◌≡◌,
  refl, sym, ap, ◌∙◌, if◌then◌else◌, get_or, leb, length, length-append, drop, Bool-cases, inl, inr,
  arith,
}
use mathlib.Core.List.{append-nil, append_assoc}
use text.Mathlib.TextEquality.{eq_iff}
use nvidia_omoda.Prelude.Dict.{get, get-put}
use nvidia_omoda.Coco.Signals.{Observation}
use nvidia_omoda.Coco.World.{Env}
use nvidia_omoda.Coco.Adapter.{
  Frame, no_json, status, failure, seen, misfit, unknown, Adapter, context_for, pushed, note,
  observe, handle_message,
}

-- The last of a list.
abbrev pub last {ℓ} : {A : Type ℓ} → ℕ → List A → List A
last n l = drop (length l - n) l

drop-append {ℓ} :
    {A : Type ℓ} (n : ℕ) (l m : List A) → n ≤ length l → drop n (l ++ m) ≡ drop n l ++ m
drop-append zero l m h = refl
drop-append (suc n) [] m h = absurd (omega (arith, h))
drop-append (suc n) (x ∷ l) m h = drop-append n l m (omega (arith, h))

drop-nil {ℓ} : {A : Type ℓ} (n : ℕ) → drop {A = A} n [] ≡ []
drop-nil zero = refl
drop-nil (suc n) = refl

drop-suc {ℓ} : {A : Type ℓ} (n : ℕ) (l : List A) → drop 1 (drop n l) ≡ drop (suc n) l
drop-suc zero l = refl
drop-suc (suc n) [] = refl
drop-suc (suc n) (x ∷ l) = drop-suc n l

length-drop {ℓ} : {A : Type ℓ} (n : ℕ) (l : List A) → length (drop n l) ≡ length l - n
length-drop zero l = omega arith
length-drop (suc n) [] = omega arith
length-drop (suc n) (x ∷ l) = omega (arith, length-drop n l)

pushed-short :
    (n : ℕ) (l : List Observation) (o : Observation) → length l < n → pushed n l o ≡ l ++ o ∷ []
pushed-short n l o h =
    let fits : leb (length (l ++ o ∷ [])) n ≡ true = ground (arith, h, length-append l (o ∷ [])) in
    rw fits refl

pushed-long :
    (n : ℕ) (l : List Observation) (o : Observation)
    → length l ≡ n
    → pushed n l o ≡ drop 1 (l ++ o ∷ [])
pushed-long n l o h =
    let full : leb (length (l ++ o ∷ [])) n ≡ false = ground (arith, h, length-append l (o ∷ [])) in
    rw full refl

-- Pushing onto the last of a list gives the last of the longer list.
last-pushed :
    (n : ℕ) (l : List Observation) (o : Observation) → pushed n (last n l) o ≡ last n (l ++ o ∷ [])
last-pushed n l o = elim (Bool-cases (leb n (length l))) [
  | inr short ↦
      let none_goes : length l - n ≡ 0 = ground (arith, short) in
      let none_goes' : length (l ++ o ∷ []) - n ≡ 0 =
        ground (arith, short, length-append l (o ∷ [])) in
      rw (none_goes, none_goes') (pushed-short n l o (ground (arith, short)))
  | inl long ↦
      let more : suc (length l - n) ≡ length (l ++ o ∷ []) - n =
        ground (arith, long, length-append l (o ∷ [])) in
      pushed-long n (drop (length l - n) l) o (ground (arith, long, length-drop (length l - n) l))
      ∙ (ap (drop 1) (sym (drop-append (length l - n) l (o ∷ []) (omega arith)))
          ∙ (drop-suc (length l - n) (l ++ o ∷ []) ∙ ap (λ k. drop k (l ++ o ∷ [])) more))
]

-- The observations of a camera among the frames.
unfoldable pub sightings : String → List (Env × Frame) → List Observation
sightings camera [] = []
sightings camera ((env, seen o) ∷ l) =
    let rest = sightings camera l in if o.camera_id == camera then o ∷ rest else rest
sightings camera ((env, f) ∷ l) = sightings camera l

unfoldable pub receive : ℕ → ℕ → List (Env × Frame) → Adapter → Adapter
unfolding handle_message
receive size clear_after [] a = a
receive size clear_after ((env, f) ∷ l) a =
    receive size clear_after l (handle_message size clear_after env f a).1

observe-context :
    (size clear_after : ℕ) (env : Env) (o : Observation) (camera : String) (a : Adapter)
    → context_for camera (observe size clear_after env o a).1 ≡ (
        if o.camera_id == camera
        then pushed size (context_for camera a) o
        else context_for camera a)
unfolding observe context_for
observe-context size clear_after env o camera a =
    ap (λ x. get_or x [])
      (get-put o.camera_id camera (pushed size (context_for o.camera_id a) o) a.contexts)
    ∙ elim (Bool-cases (o.camera_id == camera)) [
      | inl same ↦ rw same (
          ap (λ k. pushed size (get_or (get k a.contexts) []) o)
            ((eq_iff o.camera_id camera).0 same))
      | inr other ↦ rw other refl
    ]

receive-context :
    (size clear_after : ℕ) (camera : String) (l : List (Env × Frame)) (a : Adapter)
    (before : List Observation)
    → context_for camera a ≡ last size before
    → context_for camera (receive size clear_after l a) ≡ last size (before ++ sightings camera l)
unfolding receive sightings handle_message note context_for
receive-context size clear_after camera [] a before h = h ∙ ap (last size) (sym (append-nil before))
receive-context size clear_after camera ((env, seen o) ∷ l) a before h =
    let a' = (observe size clear_after env o a).1 in
    elim (Bool-cases (o.camera_id == camera)) [
      | inl same ↦ rw same (
          receive-context size clear_after camera l a' (before ++ o ∷ []) (
            observe-context size clear_after env o camera a
            ∙ (ap (λ b. if b then pushed size (context_for camera a) o else context_for camera a)
                  same
                ∙ (ap (λ w. pushed size w o) h ∙ last-pushed size before o)))
          ∙ ap (last size) (append_assoc before (o ∷ []) (sightings camera l)))
      | inr other ↦ rw other (
          receive-context size clear_after camera l a' before (
            observe-context size clear_after env o camera a
            ∙ (ap (λ b. if b then pushed size (context_for camera a) o else context_for camera a)
                  other
                ∙ h)))
    ]
receive-context size clear_after camera ((env, no_json) ∷ l) a before h =
    receive-context size clear_after camera l a before h
receive-context size clear_after camera ((env, status none) ∷ l) a before h =
    receive-context size clear_after camera l a before h
receive-context size clear_after camera ((env, status (some (state, c, detail))) ∷ l) a before h =
    receive-context size clear_after camera l
      (handle_message size clear_after env (status (some (state, c, detail))) a).1 before h
receive-context size clear_after camera ((env, failure none) ∷ l) a before h =
    receive-context size clear_after camera l a before h
receive-context size clear_after camera ((env, failure (some (code, c))) ∷ l) a before h =
    receive-context size clear_after camera l
      (handle_message size clear_after env (failure (some (code, c))) a).1 before h
receive-context size clear_after camera ((env, misfit message) ∷ l) a before h =
    receive-context size clear_after camera l
      (handle_message size clear_after env (misfit message) a).1 before h
receive-context size clear_after camera ((env, unknown t) ∷ l) a before h =
    receive-context size clear_after camera l a before h

-- What a new adapter keeps of a camera is the last `size` observations of that camera, in their order, whatever other frames came
-- between them.
pub context_is_last :
    (size clear_after : ℕ) (camera : String) (l : List (Env × Frame)) (a : Adapter)
    → a.contexts ≡ []
    → context_for camera (receive size clear_after l a) ≡ last size (sightings camera l)
unfolding context_for get
context_is_last size clear_after camera l a fresh =
    receive-context size clear_after camera l a [] (
      ap (λ m. get_or (get camera m) []) fresh
      ∙ sym (drop-nil (length {A = Observation} [] - size)))
