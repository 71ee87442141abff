-- ===== src/Models/Screen.antt =====
-- src/models/screen.js: untrusted text before it reaches a planner. Texts are lists of character codes.
pub mod Clean
use nvidia_omoda.Prelude.{
  ℕ, zero, suc, ◌+◌, String, Bool, true, false, not, ◌&&◌, ◌||◌, Option, none, some, List, [], ◌∷◌,
  ◌++◌, ◌==◌, if◌then◌else◌, map, length, ltb, eqb, take, any, includes,
}
use Prim.Native.String
use nvidia_omoda.Prelude.Rx.{codes, dot, space, contains}
use nvidia_omoda.Prelude.Search
use nvidia_omoda.Prelude.Search.{
  Part, one, texts, upto, perhaps, edge, find_first, found, replace_first,
}
use nvidia_omoda.Json.{
  Value, Items, Fields, undef, null, bool, num, frac, str, arr, obj, nil, cons, end, field,
}

abbrev pub spaces : Part
spaces = Search.any space

abbrev pub word : String → Part
word w = texts (codes w ∷ [])

abbrev pub words : List String → Part
words l = texts (map codes l)

-- INJECTION_PATTERNS; all of them disregard the case of letters.
abbrev pub injection_patterns : List (List Part)
injection_patterns =
    (word "ignore "
      ∷ perhaps (codes "all ")
      ∷ words ("previous" ∷ "prior" ∷ "above" ∷ [])
      ∷ word " instructions"
      ∷ [])
    ∷ (word "disregard "
        ∷ perhaps (codes "the ")
        ∷ words ("system" ∷ "previous" ∷ [])
        ∷ word " prompt"
        ∷ [])
    ∷ (word "you are now " ∷ words ("a" ∷ "an" ∷ "in" ∷ []) ∷ word " " ∷ [])
    ∷ (edge ∷ word "system" ∷ spaces ∷ word ":" ∷ spaces ∷ [])
    ∷ (word "<|" ∷ words ("im_start" ∷ "im_end" ∷ "system" ∷ []) ∷ word "|>" ∷ [])
    ∷ (edge
        ∷ word "approve"
        ∷ edge
        ∷ upto 40 dot
        ∷ edge
        ∷ words ("this" ∷ "the" ∷ [])
        ∷ edge
        ∷ upto 20 dot
        ∷ edge
        ∷ words ("action" ∷ "intent" ∷ "request" ∷ [])
        ∷ edge
        ∷ [])
    ∷ (edge
        ∷ word "grant"
        ∷ edge
        ∷ upto 30 dot
        ∷ edge
        ∷ words ("access" ∷ "permission" ∷ "scope" ∷ [])
        ∷ edge
        ∷ [])
    ∷ []

abbrev redaction : List ℕ
redaction = codes "[redacted: instruction-shaped content]"

-- A text, and the flags that were raised on it.
pub record Screened : Type 0 where
  pub clean : List ℕ
  pub flags : List String

-- One pattern: only its first match is replaced.
unfoldable pub mark : List Part → Screened → Screened
unfolding replace_first
mark re s =
    if found re s.clean
    then record {
      clean = replace_first re redaction s.clean;
      flags = s.flags ++ "instruction-shaped" ∷ [];
    }
    else s

-- The loop over the patterns.
unfoldable pub redact : List (List Part) → Screened → Screened
unfolding mark
redact [] s = s
redact (re ∷ l) s = redact l (mark re s)

-- `screenText`.
unfoldable pub screen_text : ℕ → List ℕ → Screened
unfolding redact
screen_text max raw =
    redact injection_patterns (record {
      clean = take max raw;
      flags = if ltb max (length raw) then "truncated" ∷ [] else [];
    })

abbrev default_max : ℕ
default_max = 4000

-- `flags.add` on a set.
abbrev add_flag : String → List String → List String
add_flag f flags = if includes flags f then flags else flags ++ f ∷ []

abbrev add_flags : String → List String → List String → List String
add_flags prefix [] flags = flags
add_flags prefix (f ∷ fs) flags = add_flags prefix fs (add_flag (String.◌++◌ prefix f) flags)

-- What is found of a nested object goes below its key: `${k}.${x}`, that of a text as `${k}:${x}`.
abbrev pub below : String → String → String
below k mark = String.◌++◌ k mark

-- A value of `screenEvidence` with its flags, whose text is printed by `print`; the entries of a list are
-- screened like the fields of an object with its positions for keys.
module _ (print : List ℕ → String) (position : ℕ → String) where
  unfoldable mutual
    unfolding screen_text

    screen_value : String → Value → List String → Value × List String
    screen_value k (str s) flags =
        let screened = screen_text default_max (codes s) in
        (str (print screened.clean), add_flags (below k ":") screened.flags flags)
    screen_value k (obj fs) flags =
        let nested = screen_fields fs [] in (obj nested.0, add_flags (below k ".") nested.1 flags)
    screen_value k (arr vs) flags =
        let nested = screen_items 0 vs [] in (obj nested.0, add_flags (below k ".") nested.1 flags)
    screen_value k undef flags = (undef, flags)
    screen_value k null flags = (null, flags)
    screen_value k (bool b) flags = (bool b, flags)
    screen_value k (num n) flags = (num n, flags)
    screen_value k (frac s) flags = (frac s, flags)

    -- `screenEvidence` from the flags that were found before.
    screen_fields : Fields → List String → Fields × List String
    screen_fields end flags = (end, flags)
    screen_fields (field k v fs) flags =
        let one = screen_value k v flags in
        let rest = screen_fields fs one.1 in (field k one.0 rest.0, rest.1)

    screen_items : ℕ → Items → List String → Fields × List String
    screen_items n nil flags = (end, flags)
    screen_items n (cons v vs) flags =
        let one = screen_value (position n) v flags in
        let rest = screen_items (n + 1) vs one.1 in (field (position n) one.0 rest.0, rest.1)

-- SHELL_METACHARACTERS.
abbrev is_meta : ℕ → Bool
is_meta c = contains (codes ";&|`$<>(){}\\\n\r") (c ∷ [])

-- `assertNotInterpolated`: `true` where it does not throw.
unfoldable not_interpolated : List ℕ → Bool
unfolding contains
not_interpolated s = not (any is_meta s) && not (contains s (codes ".."))
