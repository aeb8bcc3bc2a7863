-- ===== src/Common/Maps.antt =====
-- A Go map as an association list with one entry for each key.
use mathlib.Core.Path.{◌≡◌, refl}
use mathlib.Core.Logic.{◌⊎◌, ◌≢◌}
use mathlib.Core.Option.{Option, none, some}
use mathlib.Core.List.{List, [], ◌∷◌}
use native.Mathlib.Omega.{arith}
use pdu_session_sim.Common.Tests.{Eq, ◌==◌, ==_iff, ==_refl, if◌then◌else◌}

abbrev pub Map {ℓ κ} : Type ℓ → Type κ → Type (ℓ ⊔ κ)
Map K V = List (K × V)

module _ {ℓ κ} {K : Type ℓ} {V : Type κ} ⦃e : Eq K⦄ where
  unfoldable pub lookup : K → Map K V → Option V
  lookup key [] = none
  lookup key ((other, found) ∷ rest) = if other == key then some found else lookup key rest

  unfoldable pub insert : K → V → Map K V → Map K V
  insert key new [] = (key, new) ∷ []
  insert key new ((other, old) ∷ rest) =
      if other == key then (key, new) ∷ rest else (other, old) ∷ insert key new rest

  unfoldable pub delete : K → Map K V → Map K V
  delete key [] = []
  delete key ((other, old) ∷ rest) =
      if other == key then delete key rest else (other, old) ∷ delete key rest

  pub lookup-insert :
      (key at : K) (new : V) (entries : Map K V)
      → lookup at (insert key new entries) ≡ (if key == at then some new else lookup at entries)
  unfolding lookup insert
  lookup-insert key at new [] = refl
  lookup-insert key at new ((other, old) ∷ rest) =
      ground
        (arith, lookup-insert key at new rest, ==_iff key at, ==_iff other key, ==_iff other at)

  pub lookup-delete :
      (key at : K) (entries : Map K V)
      → lookup at (delete key entries) ≡ (if key == at then none else lookup at entries)
  unfolding lookup delete
  lookup-delete key at [] = ground arith
  lookup-delete key at ((other, old) ∷ rest) =
      ground (arith, lookup-delete key at rest, ==_iff key at, ==_iff other key, ==_iff other at)

  pub lookup-insert_self : (k : K) (v : V) (m : Map K V) → lookup k (insert k v m) ≡ some v
  lookup-insert_self k v m = ground (arith, lookup-insert k k v m, ==_refl k)

  -- An entry found after an insertion is the new one or an old one.
  pub lookup-insert_cases :
      (k j : K) (v w : V) (m : Map K V)
      → lookup j (insert k v m) ≡ some w
      → ((k ≡ j) × (v ≡ w)) ⊎ ((k ≢ j) × (lookup j m ≡ some w))
  lookup-insert_cases k j v w m h = ground (arith, lookup-insert k j v m, ==_iff k j)

  -- An entry found after a deletion is an old one, under another key.
  pub lookup-delete_cases :
      (k j : K) (w : V) (m : Map K V)
      → lookup j (delete k m) ≡ some w
      → (k ≢ j) × (lookup j m ≡ some w)
  lookup-delete_cases k j w m h = ground (arith, lookup-delete k j m, ==_iff k j)
