-- ===== src/Base/Maps.antt =====
-- JavaScript's `Map` with text keys: an association list in insertion order, where `set` on a key
-- that is there replaces its value in place.
use mathlib.Core.Path.{◌≡◌, refl}
use mathlib.Core.Bool.{Bool, true, false}
use mathlib.Core.List.{List, [], ◌∷◌}
use mathlib.Core.Logic.{◌⊎◌, inl, inr}
use mathlib.Core.Option.{Option, none, some}
use native.Mathlib.Omega.{arith}
use inter_agent_bus.Base.Tests.{if◌then◌else◌, Bool-cases}
use inter_agent_bus.Base.Texts.{Text, ◌==◌, ==_iff, ==_refl}

abbrev pub Map {ℓ} : Type ℓ → Type ℓ
Map V = List (Text × V)

module _ {ℓ} {V : Type ℓ} where
  unfoldable pub get : Text → Map V → Option V
  get k [] = none
  get k ((j, v) ∷ m) = if j == k then some v else get k m

  unfoldable pub has : Text → Map V → Bool
  has k [] = false
  has k ((j, v) ∷ m) = if j == k then true else has k m

  unfoldable pub set : Text → V → Map V → Map V
  set k v [] = (k, v) ∷ []
  set k v ((j, w) ∷ m) = if j == k then (j, v) ∷ m else (j, w) ∷ set k v m

  unfoldable pub delete : Text → Map V → Map V
  delete k [] = []
  delete k ((j, v) ∷ m) = let rest = delete k m in if j == k then rest else (j, v) ∷ rest

  unfoldable pub values : Map V → List V
  values [] = []
  values ((j, v) ∷ m) = v ∷ values m

  pub get-set :
      (k j : Text) (v : V) (m : Map V) → get j (set k v m) ≡ (if k == j then some v else get j m)
  unfolding get set
  get-set k j v [] = ground (arith, ==_iff k j)
  get-set k j v ((i, w) ∷ m) = ground (arith, get-set k j v m, ==_iff i k, ==_iff i j, ==_iff k j)

  pub get-delete :
      (k j : Text) (m : Map V) → get j (delete k m) ≡ (if k == j then none else get j m)
  unfolding get delete
  get-delete k j [] = ground arith
  get-delete k j ((i, w) ∷ m) = ground (arith, get-delete k j m, ==_iff i k, ==_iff i j, ==_iff k j)

  pub has-get : (k : Text) (m : Map V) → get k m ≡ none → has k m ≡ false
  unfolding get has
  has-get k [] h = refl
  has-get k ((j, v) ∷ m) h = ground (arith, has-get k m)

  pub get-has : (k : Text) (m : Map V) → has k m ≡ false → get k m ≡ none
  unfolding get has
  get-has k [] h = refl
  get-has k ((j, v) ∷ m) h = ground (arith, get-has k m)

module _ {ℓ} {V : Type ℓ} where
  -- What is found after a change was there before, or is what was put.
  pub get-delete-some :
      (k j : Text) (m : Map V) (v : V)
      → get j (delete k m) ≡ some v
      → ((k == j) ≡ false) × (get j m ≡ some v)
  get-delete-some k j m v h = ground (arith, get-delete k j m)

  pub get-delete_ne : (k j : Text) (m : Map V) → (k == j) ≡ false → get j (delete k m) ≡ get j m
  get-delete_ne k j m h = rw (get-delete k j m, h)

  pub get-delete_self : (k : Text) (m : Map V) → get k (delete k m) ≡ none
  get-delete_self k m = rw (get-delete k k m, ==_refl k)

  pub get-set-some :
      (k j : Text) (v w : V) (m : Map V)
      → get j (set k v m) ≡ some w
      → ((k ≡ j) × (v ≡ w)) ⊎ (((k == j) ≡ false) × (get j m ≡ some w))
  get-set-some k j v w m h = elim (Bool-cases (k == j)) [
    | inl e ↦ inl ((==_iff k j).0 e, ground (arith, get-set k j v m))
    | inr e ↦ inr (e, ground (arith, get-set k j v m))
  ]

  pub get-set_ne : (k j : Text) (v : V) (m : Map V) → (k == j) ≡ false → get j (set k v m) ≡ get j m
  get-set_ne k j v m h = rw (get-set k j v m, h)

  pub get-set_self : (k : Text) (v : V) (m : Map V) → get k (set k v m) ≡ some v
  get-set_self k v m = rw (get-set k k v m, ==_refl k)

module _ {ℓ} {V : Type ℓ} where
  -- No key stands in the list twice.
  abbrev pub Distinct : Map V → Type 0
  Distinct [] = Unit {0}
  Distinct ((k, v) ∷ m) = (has k m ≡ false) × Distinct m

  has-set :
      (k j : Text) (v : V) (m : Map V)
      → (k == j) ≡ false
      → has j m ≡ false
      → has j (set k v m) ≡ false
  unfolding has set
  has-set k j v [] h e = rw h
  has-set k j v ((i, w) ∷ m) h e = ground (arith, has-set k j v m, ==_iff i k)

  pub Distinct-set : (k : Text) (v : V) (m : Map V) → Distinct m → Distinct (set k v m)
  unfolding has set
  Distinct-set k v [] d = (refl, tt)
  Distinct-set k v ((i, w) ∷ m) d =
      ground (arith, has-set k i v m, ==_iff i k, ==_iff k i, Distinct-set k v m d.1)

  has-delete : (k j : Text) (m : Map V) → has j m ≡ false → has j (delete k m) ≡ false
  unfolding has delete
  has-delete k j [] h = refl
  has-delete k j ((i, w) ∷ m) h = ground (arith, has-delete k j m)

  pub Distinct-delete : (k : Text) (m : Map V) → Distinct m → Distinct (delete k m)
  unfolding delete
  Distinct-delete k [] d = tt
  Distinct-delete k ((i, w) ∷ m) d = ground (arith, has-delete k i m, Distinct-delete k m d.1)

  -- An entry further down is found from the top.
  pub get-tail :
      (k j : Text) (v w : V) (m : Map V)
      → has k m ≡ false
      → get j m ≡ some w
      → get j ((k, v) ∷ m) ≡ some w
  unfolding get
  get-tail k j v w m h e = ground (arith, ==_iff k j, get-has k m)

  pub get-head : (k : Text) (v : V) (m : Map V) → get k ((k, v) ∷ m) ≡ some v
  unfolding get
  get-head k v m = rw (==_refl k)

  pub get-empty : (k : Text) → get {V = V} k [] ≡ none
  unfolding get
  get-empty k = refl
