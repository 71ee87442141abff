-- ===== src/Examples/Ledger.antt =====
-- The ledger of src/ledger/ledger.js at concrete entries.
use nvidia_omoda.Prelude.{
  ℕ, ◌+◌, ◌%◌, arith, eq_iff, String, Bool, true, false, List, [], ◌∷◌, ◌≡◌, ◌≢◌, refl, ◌⊎◌, length,
  eqb, if◌then◌else◌, ◌↔◌,
}
use nvidia_omoda.Prelude.Rx.{codes}
use nvidia_omoda.Json.{Fields, str, num, object}
use nvidia_omoda.Ledger.{
  Ledger, create_ledger, append, verify, intact, bad_chain, genesis, synced, next_record,
}
use nvidia_omoda.Ledger.Chain.{IsSound, Chained, append-IsSound, verify_iff}
use nvidia_omoda.Ledger.Chain.Tamper.{tamper_evident, ArePlain, SameContent, Collision}
use nvidia_omoda.Ledger.Chain.Restart.{restart, append_all, unsynced-breaks, torn}

abbrev ones : String
ones = "1111111111111111111111111111111111111111111111111111111111111111"

-- A digest of 64 characters.
abbrev digest : List ℕ → String
digest s = if eqb (length s % 2) 0 then genesis else ones

length-digest : (s : List ℕ) → length (codes (digest s)) ≡ 64
length-digest s = of_test (eqb (length s % 2) 0)
  where
    of_test : (b : Bool) → length (codes (if b then genesis else ones)) ≡ 64
    of_test true = refl
    of_test false = refl

abbrev always_ones : List ℕ → String
always_ones s = ones

abbrev started : Ledger
started = create_ledger false []

abbrev read_entry : Fields
read_entry = object (("tool", str "fs.read") ∷ ("tier", str "safe") ∷ [])

abbrev write_entry : Fields
write_entry = object (("tool", str "fs.write") ∷ ("tier", str "contained") ∷ [])

started-IsSound : (sha256 : List ℕ → String) → IsSound sha256 started
unfolding create_ledger
started-IsSound sha256 = record { chained = tt; latest = refl; counted = refl; numbered = tt }

verify_iff_example :
    (verify digest (append digest started read_entry "t1" synced).1
      ≡ intact (length (append digest started read_entry "t1" synced).1.memory))
    ↔ Chained digest genesis (append digest started read_entry "t1" synced).1.memory
verify_iff_example = verify_iff digest (append digest started read_entry "t1" synced).1

abbrev one_read : Ledger
one_read = (append digest started read_entry "t1" synced).1

one_read-IsSound : IsSound digest one_read
one_read-IsSound =
    append-IsSound digest started read_entry "t1" synced refl (started-IsSound digest)

-- The same entry with its keys in another order.
abbrev turned_entry : Fields
turned_entry = object (("tier", str "safe") ∷ ("tool", str "fs.read") ∷ [])

abbrev turned : Ledger
turned = (append digest started turned_entry "t1" synced).1

turned-IsSound : IsSound digest turned
turned-IsSound =
    append-IsSound digest started turned_entry "t1" synced refl (started-IsSound digest)

one_read-Plain : ArePlain one_read.memory
unfolding create_ledger append
one_read-Plain = ((tt, (tt, (tt, (tt, (tt, tt))))), tt)

turned-Plain : ArePlain turned.memory
unfolding create_ledger append
turned-Plain = ((tt, (tt, (tt, (tt, (tt, tt))))), tt)

one_seq : one_read.seq ≡ turned.seq
unfolding create_ledger append
one_seq = refl

one_hash : one_read.prev_hash ≡ turned.prev_hash
unfolding create_ledger append nvidia_omoda.Json.canonical
one_hash = refl

tamper_evident_example : SameContent one_read.memory turned.memory ⊎ Collision digest
tamper_evident_example =
    tamper_evident digest length-digest one_read turned one_read-IsSound turned-IsSound
      one_read-Plain turned-Plain one_seq one_hash

restart_example :
    let l = append_all digest started ((read_entry, "t1") ∷ (write_entry, "t2") ∷ []) in
    (create_ledger false l.file ≡ l)
    × (verify digest (create_ledger false l.file) ≡ intact (length l.memory))
restart_example =
    restart digest ((read_entry, "t1") ∷ (write_entry, "t2") ∷ [])
      (((tt, (tt, tt)), refl), (((tt, (tt, tt)), refl), tt))

differs : (next_record always_ones started read_entry "t1").hash ≢ started.prev_hash
unfolding create_ledger next_record
differs = apart
  where
    apart : ones ≢ genesis
    apart e = ground (arith, eq_iff ones genesis, e)

unsynced-breaks_example :
    let m = torn always_ones started read_entry write_entry "t1" "t2" "EIO" in
    IsSound always_ones m
    × (verify always_ones (create_ledger false m.file) ≡ bad_chain (num (started.seq + 1)))
unfolding create_ledger
unsynced-breaks_example =
    unsynced-breaks always_ones started read_entry write_entry "t1" "t2" "EIO"
      (started-IsSound always_ones) refl refl ((tt, (tt, tt)), refl) ((tt, (tt, tt)), refl) differs
