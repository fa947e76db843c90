-- ===== src/Prelude/Dict.antt =====
-- A Go map as an association list. The order of the list is the order in which `range` visits the
-- entries; Go leaves it open, so every statement holds for every order.
use mathlib.Core.Path.{◌≡◌, refl}
use mathlib.Core.Option.{Option, none, some}
use mathlib.Core.List.{List, [], ◌∷◌}
use native.Mathlib.Omega.{arith}
use cdm_center.Prelude.Tests.{Comparable, ◌==◌, if◌then◌else◌}

abbrev pub Dict {ℓ κ} : Type ℓ → Type κ → Type (ℓ ⊔ κ)
Dict K V = List (K × V)

module _ {ℓ κ} {K : Type ℓ} {V : Type κ} ⦃c : Comparable K⦄ where
  -- `v, ok := m[k]`
  unfoldable pub lookup : K → Dict K V → Option V
  lookup key [] = none
  lookup key ((k, value) ∷ m) = let behind = lookup key m in if k == key then some value else behind

  -- `m[k] = v`: in place, or a new entry at the end
  unfoldable pub insert : K → V → Dict K V → Dict K V
  insert key value [] = (key, value) ∷ []
  insert key value ((k, old) ∷ m) =
      let behind = insert key value m in if k == key then (key, value) ∷ m else (k, old) ∷ behind

  -- `delete(m, k)`
  unfoldable pub delete : K → Dict K V → Dict K V
  delete key [] = []
  delete key ((k, value) ∷ m) =
      let behind = delete key m in if k == key then behind else (k, value) ∷ behind

  -- Reading `b` behind a write at `a`.
  pub lookup-insert :
      (a b : K) (value : V) (m : Dict K V)
      → lookup b (insert a value m) ≡ (if a == b then some value else lookup b m)
  unfolding insert lookup
  lookup-insert a b value [] = refl
  lookup-insert a b value ((k, old) ∷ m) =
      let ih = lookup-insert a b value m in
      ground (arith, ih, c.same_iff k a, c.same_iff k b, c.same_iff a b)

  pub lookup-delete :
      (a b : K) (m : Dict K V) → lookup b (delete a m) ≡ (if a == b then none else lookup b m)
  unfolding lookup delete
  lookup-delete a b [] = ground arith
  lookup-delete a b ((k, value) ∷ m) =
      let ih = lookup-delete a b m in
      ground (arith, ih, c.same_iff k a, c.same_iff k b, c.same_iff a b)
