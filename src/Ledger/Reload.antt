-- ===== src/Ledger/Reload.antt =====
-- What `JSON.parse(JSON.stringify(v))` keeps of a value: a field that is `undefined` is dropped, and
-- an item that is becomes null.
use nvidia_omoda.Json.{
  Value, Items, Fields, undef, null, bool, num, frac, str, arr, obj, nil, cons, end, field,
}
use nvidia_omoda.Prelude.{◌≡◌, refl, ap}

unfoldable mutual
  pub reload : Value → Value
  reload (arr xs) = arr (reload_items xs)
  reload (obj fs) = obj (reload_fields fs)
  reload undef = undef
  reload null = null
  reload (bool b) = bool b
  reload (num n) = num n
  reload (frac s) = frac s
  reload (str s) = str s

  pub reload_items : Items → Items
  reload_items nil = nil
  reload_items (cons undef xs) = cons null (reload_items xs)
  reload_items (cons v xs) = cons (reload v) (reload_items xs)

  pub reload_fields : Fields → Fields
  reload_fields end = end
  reload_fields (field k undef fs) = reload_fields fs
  reload_fields (field k v fs) = field k (reload v) (reload_fields fs)

-- No `undefined` anywhere inside.
abbrev mutual
  pub IsDefined : Value → Type 0
  IsDefined (arr xs) = AreDefined xs
  IsDefined (obj fs) = AreFieldsDefined fs
  IsDefined undef = ⊥
  IsDefined null = Unit
  IsDefined (bool b) = Unit
  IsDefined (num n) = Unit
  IsDefined (frac s) = Unit
  IsDefined (str s) = Unit

  pub AreDefined : Items → Type 0
  AreDefined nil = Unit
  AreDefined (cons v xs) = IsDefined v × AreDefined xs

  pub AreFieldsDefined : Fields → Type 0
  AreFieldsDefined end = Unit
  AreFieldsDefined (field k v fs) = IsDefined v × AreFieldsDefined fs

mutual
  unfolding reload reload_items reload_fields

  reload_same : (v : Value) → IsDefined v → reload v ≡ v
  reload_same (arr xs) h = ap arr (reload_items_same xs h)
  reload_same (obj fs) h = ap obj (reload_fields_same_in fs h)
  reload_same undef h = absurd h
  reload_same null h = refl
  reload_same (bool b) h = refl
  reload_same (num n) h = refl
  reload_same (frac s) h = refl
  reload_same (str s) h = refl

  reload_items_same : (xs : Items) → AreDefined xs → reload_items xs ≡ xs
  reload_items_same nil h = refl
  reload_items_same (cons undef xs) h = absurd h.0
  reload_items_same (cons v xs) h = cc (reload_same v h.0, reload_items_same xs h.1)

  reload_fields_same_in : (fs : Fields) → AreFieldsDefined fs → reload_fields fs ≡ fs
  reload_fields_same_in end h = refl
  reload_fields_same_in (field k undef fs) h = absurd h.0
  reload_fields_same_in (field k v fs) h = cc (reload_same v h.0, reload_fields_same_in fs h.1)

pub reload_fields_same : (fs : Fields) → AreFieldsDefined fs → reload_fields fs ≡ fs
reload_fields_same fs h = reload_fields_same_in fs h
