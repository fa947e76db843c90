-- ===== src/Steps.antt =====
-- Calls one behind the other, the way the Go code returns the first error: the state comes back with
-- the error, if there is one. cluster-manager/sync and cluster-manager/client/openstack use it.
use cdm_center.Prelude.{String, Bool, false, Option, none, some, ◌≡◌, refl, arith, ◌==◌, String-Eq}
use cdm_center.Errors.{Error}

-- `if err = ...; err != nil { return err }` before what comes next
unfoldable pub and_then {ℓ} :
    {A : Type ℓ} → A × Option Error → (A → A × Option Error) → A × Option Error
and_then (a, none) next = next a
and_then (a, some e) next = (a, some e)

pub and_then-none {ℓ} :
    {A : Type ℓ} (o : A × Option Error) (f : A → A × Option Error)
    → o.1 ≡ none
    → and_then o f ≡ f o.0
unfolding and_then
and_then-none (a, none) f h = refl
and_then-none (a, some e) f h = absurd (ground (arith, h))

pub and_then-some {ℓ} :
    {A : Type ℓ} (o : A × Option Error) (e : Error) (f : A → A × Option Error)
    → o.1 ≡ some e
    → and_then o f ≡ o
unfolding and_then
and_then-some (a, none) e f h = absurd (ground (arith, h))
and_then-some (a, some x) e f h = refl

-- A run without an error is one of each part.
pub and_then_inv {ℓ} :
    {A : Type ℓ} (o : A × Option Error) (f : A → A × Option Error) {t : A}
    → and_then o f ≡ (t, none)
    → (u : A) × (o ≡ (u, none)) × (f u ≡ (t, none))
unfolding and_then
and_then_inv (a, none) f h = (a, refl, h)
and_then_inv (a, some e) f h = absurd (ground (arith, h))

-- Whether an answer names x.
abbrev pub named : String → Option String → Bool
named x none = false
named x (some y) = x == y

-- What a call that creates answers: `(nil, err)`, `(&ret, err)` for what was made and did not become
-- ready, or `(&ret, nil)`.
pub data Made (A : Type 0) : Type 0 where
  refused : Error → Made A
  broken : A → Error → Made A
  made : A → Made A

-- what was made, ready or not
unfoldable pub made_of : {A : Type 0} → Made A → Option A
made_of (Made.refused e) = none
made_of (Made.broken a e) = some a
made_of (Made.made a) = some a
