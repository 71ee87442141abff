-- ===== src/Broker/World/Entry.antt =====
-- The entries that src/broker/authorize.js writes have no field `hash` of their own.
use nvidia_omoda.Prelude.{
  ℕ, String, true, false, Option, none, some, List, [], ◌∷◌, ◌++◌, ◌==◌, ◌≡◌, refl, arith, if-both,
}
use nvidia_omoda.Json.{Value, object}
use nvidia_omoda.Domain.Taxonomy.{Tier}
use nvidia_omoda.Domain.Action.{Action, Request}
use nvidia_omoda.Ledger.Chain.{hashless}
use nvidia_omoda.Broker.World.{optional, target_of, base_entry, entry_of}

abbrev Plain : List (String × Value) → Type 0
Plain l = hashless (object l) ≡ true

Plain-append : (l m : List (String × Value)) → Plain l → Plain m → Plain (l ++ m)
Plain-append [] m h k = k
Plain-append ((j, v) ∷ l) m h k = ground (arith, h, Plain-append l m (ground (arith, h)) k)

Plain-optional :
    (key : String) (o : Option String) → (key == "hash") ≡ false → Plain (optional key o)
Plain-optional key none h = refl
Plain-optional key (some s) h = if-both Plain (s == "") [] _ refl (ground (arith, h))

Plain-target_of : (o : Option Request) → Plain (target_of o)
Plain-target_of none = refl
Plain-target_of (some q) = refl

Plain-base_entry : (sha256 : List ℕ → String) (a : Action) → Plain (base_entry sha256 a)
unfolding base_entry
Plain-base_entry sha256 a =
    Plain-append (optional "intentId" a.intent_id)
      (optional "resource" a.resource ++ target_of a.request)
      (Plain-optional "intentId" a.intent_id refl)
      (Plain-append (optional "resource" a.resource) (target_of a.request)
        (Plain-optional "resource" a.resource refl) (Plain-target_of a.request))

-- What is added to an entry decides.
pub hashless-entry_of :
    (sha256 : List ℕ → String) (a : Action) (t : Tier) (authority outcome : String)
    (more : List (String × Value))
    → hashless (object more) ≡ true
    → hashless (entry_of sha256 a t authority outcome more) ≡ true
unfolding entry_of
hashless-entry_of sha256 a t authority outcome more h =
    Plain-append (base_entry sha256 a) _ (Plain-base_entry sha256 a) h
