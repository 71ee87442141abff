-- ===== src/Ledger.antt =====
-- src/ledger/ledger.js: the hash-chained, append-only action ledger. The digest and the disk are
-- arguments: `sha256` stands for node:crypto, `Disk` says how one write of a line went.
pub mod Reload
pub mod Chain
use nvidia_omoda.Prelude.{
  ℕ, zero, suc, ◌+◌, ◌-◌, String, Bool, true, false, not, ◌&&◌, ◌||◌, Option, none, some, List, [],
  ◌∷◌, ◌++◌, ◌==◌, eqb, if◌then◌else◌, keep, drop, length,
}
use nvidia_omoda.Prelude.Rx.{codes}
use nvidia_omoda.Json.{
  Value, Items, Fields, undef, null, bool, num, frac, str, arr, obj, nil, cons, end, field, prop,
  canonical, le_codes,
}
use Reload.{reload_fields}

-- An object that the ledger holds: its fields but `hash`, and its hash.
pub record Record : Type 0 where
  pub body : Fields
  pub hash : String

-- A line of the file: a record as `JSON.parse` gives it back, or text that does not parse.
pub data Line : Type 0 where
  parsed : Record → Line
  garbage : Line

pub record Ledger : Type 0 where
  pub broken : Bool
  pub seq : ℕ
  pub prev_hash : String
  pub memory : List Record
  pub file : List Line

-- How the write of one line went: on disk, not written, or written but not synced.
pub data Disk : Type 0 where
  synced : Disk
  unwritten unsynced : String → Disk

pub data Appended : Type 0 where
  done : Record → Appended
  write_error : String → Appended

pub data Verdict : Type 0 where
  intact : ℕ → Verdict
  bad_chain bad_content : Value → Verdict

abbrev pub genesis : String
genesis = "0000000000000000000000000000000000000000000000000000000000000000"

-- `{ ...o, k: v }`: a key that is there keeps its place.
unfoldable pub set_field : String → Value → Fields → Fields
set_field k v end = field k v end
set_field k v (field j w fs) = if j == k then field j v fs else field j w (set_field k v fs)

abbrev pub is_absent : Value → Bool
is_absent undef = true
is_absent null = true
is_absent _ = false

-- What is left of an object when a key is taken out.
unfoldable pub without_field : String → Fields → Fields
without_field k end = end
without_field k (field j v fs) =
    let rest = without_field k fs in if j == k then rest else field j v rest

-- The body that is hashed for the next record.
unfoldable pub body_of : Fields → ℕ → String → String → Fields
unfolding set_field prop
body_of entry seq prev now =
    set_field "at" (if is_absent (prop "at" entry) then str now else prop "at" entry)
      (set_field "prevHash" (str prev) (set_field "seq" (num seq) entry))

-- `rec.seq` of a line read back, where it is a number.
abbrev pub number_of : Value → ℕ
number_of (num n) = n
number_of _ = 0

-- `v === t` for a text t.
abbrev pub is_text : Value → String → Bool
is_text (str s) t = s == t
is_text _ t = false

-- What a line reads back as.
unfoldable pub stored : Record → Line
unfolding reload_fields
stored r = parsed (record { body = reload_fields r.body; hash = r.hash })

module _ (sha256 : List ℕ → String) where
  unfoldable pub hash_entry : String → Fields → String
  hash_entry prev entry = sha256 (codes prev ++ canonical (obj entry))

  -- A field `hash` of the entry is hashed with the others, and then gives way to the digest.
  unfoldable pub next_record : Ledger → Fields → String → Record
  unfolding hash_entry body_of without_field
  next_record l entry now =
      let body = body_of entry (l.seq + 1) l.prev_hash now in
      record { body = without_field "hash" body; hash = hash_entry l.prev_hash body }

  -- The state after a record is on disk.
  unfoldable pub push_record : Ledger → Record → Ledger
  push_record l r = record l {
    seq = l.seq + 1;
    prev_hash = r.hash;
    memory = l.memory ++ r ∷ [];
    file = l.file ++ stored r ∷ [];
  }

  unfoldable pub append : Ledger → Fields → String → Disk → Appended × Ledger
  unfolding next_record push_record
  append l entry now disk =
      let r = next_record l entry now in
      if l.broken then (write_error "ledger unavailable", l) else elim disk [
        | synced ↦ (done r, push_record l r)
        | unwritten message ↦ (write_error message, l)
        | unsynced message ↦ (write_error message, record l { file = l.file ++ stored r ∷ [] })
      ]

  -- The loop of `verify`, with the records seen before.
  unfoldable pub verify_from : String → ℕ → List Record → Verdict
  unfolding hash_entry
  verify_from prev n [] = intact n
  verify_from prev n (r ∷ rs) =
      if not (is_text (prop "prevHash" r.body) prev)
      then bad_chain (prop "seq" r.body)
      else if not (hash_entry prev r.body == r.hash)
      then bad_content (prop "seq" r.body)
      else verify_from r.hash (suc n) rs

  unfoldable pub verify : Ledger → Verdict
  unfolding verify_from
  verify l = verify_from genesis 0 l.memory

-- The lines of the file when a ledger is opened: the first that does not parse breaks it.
unfoldable pub load_lines : Ledger → List Line → Ledger
load_lines l [] = l
load_lines l (garbage ∷ ls) = record l { broken = true }
load_lines l (parsed r ∷ ls) =
    load_lines
      (record l {
        seq = number_of (prop "seq" r.body);
        prev_hash = r.hash;
        memory = l.memory ++ r ∷ [];
      })
      ls

unfoldable pub create_ledger : Bool → List Line → Ledger
unfolding load_lines
create_ledger broken file =
    let fresh : Ledger = record {
      broken = broken;
      seq = 0;
      prev_hash = genesis;
      memory = [];
      file = file;
    } in
    if broken then fresh else load_lines fresh file

-- The filters of `query`; a filter that is left out passes every record.
pub record Query : Type 0 where
  pub since : Option String
  pub tier : Option String
  pub agent : Option String
  pub verb : Option String
  pub impact : Option String
  pub intent_id : Option String
  pub outcome : Option String
  pub kind : Option String
  pub limit : ℕ

-- `(f ? test : true)`, where the empty text counts as left out.
abbrev pub filtered : Option String → (String → Bool) → Bool
filtered none test = true
filtered (some s) test = if s == "" then true else test s

unfoldable pub items_include : Items → String → Bool
items_include nil t = false
items_include (cons v vs) t = is_text v t || items_include vs t

unfoldable pub array_includes : Value → String → Bool
unfolding items_include
array_includes (arr vs) t = items_include vs t
array_includes _ t = false

-- `r.at >= since`.
unfoldable pub at_least : Value → String → Bool
unfolding le_codes
at_least (str s) t = le_codes (codes t) (codes s)
at_least _ t = false

unfoldable pub selects : Query → Record → Bool
unfolding at_least array_includes prop
selects q r =
    filtered q.since (at_least (prop "at" r.body))
    && filtered q.tier (is_text (prop "tier" r.body))
    && filtered q.agent (is_text (prop "agent" r.body))
    && filtered q.verb (is_text (prop "verb" r.body))
    && filtered q.impact (array_includes (prop "impact" r.body))
    && filtered q.intent_id (is_text (prop "intentId" r.body))
    && filtered q.outcome (is_text (prop "outcome" r.body))
    && filtered q.kind (is_text (prop "kind" r.body))

-- `xs.slice(-n)`: with n = 0 it is the whole array.
abbrev pub slice_last {ℓ} : {A : Type ℓ} → ℕ → List A → List A
slice_last n xs = if eqb n 0 then xs else drop (length xs - n) xs

unfoldable pub query : Ledger → Query → List Record
unfolding selects
query l q = slice_last q.limit (keep (selects q) l.memory)
