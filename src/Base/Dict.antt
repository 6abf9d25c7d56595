-- ===== src/Base/Dict.antt =====
-- Go maps as association lists. An assignment replaces the entry where it stands or adds one at the
-- end; iteration goes through the list in order.
use mathlib.Core.Path.{◌≡◌, refl}
use mathlib.Core.Logic.{◌≢◌, ◌⊎◌}
use mathlib.Core.List.{List, [], ◌∷◌}
use mathlib.Core.Option.{Option, none, some}
use native.Mathlib.Omega.{arith}
use game_server_manager.Base.Tests.{MapKey, if◌then◌else◌}
use game_server_manager.Base.Lists.{Has}

-- The first option that holds a value.
abbrev pub or_else {ℓ} : {A : Type ℓ} → Option A → Option A → Option A
or_else none o = o
or_else (some v) o = some v

pub or_else-none {ℓ} : {A : Type ℓ} (o : Option A) → o ≡ or_else o none
or_else-none none = refl
or_else-none (some v) = refl

pub or_else_assoc {ℓ} :
    {A : Type ℓ} (a b c : Option A) → or_else (or_else a b) c ≡ or_else a (or_else b c)
or_else_assoc none b c = refl
or_else_assoc (some v) b c = refl

module _ {ℓ κ} {K : Type ℓ} {V : Type κ} ⦃key : MapKey K⦄ where
  unfoldable pub lookup : K → List (K × V) → Option V
  lookup wanted [] = none
  lookup wanted ((k, v) ∷ rest) = if key.same k wanted then some v else lookup wanted rest

  unfoldable pub insert : K → V → List (K × V) → List (K × V)
  insert new v [] = (new, v) ∷ []
  insert new v ((k, old) ∷ rest) =
      if key.same k new then (new, v) ∷ rest else (k, old) ∷ insert new v rest

  unfoldable pub delete : K → List (K × V) → List (K × V)
  delete k [] = []
  delete k ((j, v) ∷ m) = if key.same j k then delete k m else (j, v) ∷ delete k m

  -- for k, v := range from { into[k] = v }
  unfoldable pub merge : List (K × V) → List (K × V) → List (K × V)
  merge [] into = into
  merge ((k, v) ∷ from) into = merge from (insert k v into)

  pub lookup-insert :
      (new wanted : K) (v : V) (m : List (K × V))
      → lookup wanted (insert new v m) ≡ (if key.same new wanted then some v else lookup wanted m)
  unfolding lookup insert
  lookup-insert new wanted v [] = refl
  lookup-insert new wanted v ((k, old) ∷ rest) =
      let later = lookup-insert new wanted v rest in
      ground (arith, key.same_iff k new, key.same_iff k wanted, key.same_iff new wanted, later)

  pub lookup-delete :
      (k j : K) (m : List (K × V))
      → lookup j (delete k m) ≡ (if key.same k j then none else lookup j m)
  unfolding lookup delete
  lookup-delete k j [] = ground arith
  lookup-delete k j ((i, w) ∷ m) =
      ground (arith, key.same_iff k j, key.same_iff i k, key.same_iff i j, lookup-delete k j m)

-- The entries of a map.
module _ {K V : Type 0} ⦃key : MapKey K⦄ where
  pub Has-insert :
      (k : K) (v : V) (m : List (K × V)) (x : K × V) → Has x (insert k v m) → (x ≡ (k, v)) ⊎ Has x m
  unfolding insert
  Has-insert k v [] x h = h
  Has-insert k v ((j, w) ∷ m) x h = ground (arith, Has-insert k v m x)

  pub Has-delete : (k : K) (m : List (K × V)) (x : K × V) → Has x (delete k m) → Has x m × (x.0 ≢ k)
  unfolding delete
  Has-delete k [] x h = absurd h
  Has-delete k ((j, w) ∷ m) x h = ground (arith, Has-delete k m x, key.same_iff j k)

  pub lookup-Has : (k : K) (m : List (K × V)) (v : V) → lookup k m ≡ some v → Has (k, v) m
  unfolding lookup
  lookup-Has k [] v h = cc
  lookup-Has k ((j, w) ∷ m) v h = ground (arith, lookup-Has k m v, key.same_iff j k)

  pub lookup-ne-none : (k : K) (m : List (K × V)) (v : V) → Has (k, v) m → lookup k m ≢ none
  unfolding lookup
  lookup-ne-none k [] v h = absurd h
  lookup-ne-none k ((j, w) ∷ m) v h = ground (arith, lookup-ne-none k m v, key.same_iff j k)
