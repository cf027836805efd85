-- ===== src/Common/Functions.antt =====
-- A function with another value at one number.
use Prim.Native.Nat.{ℕ}
use mathlib.Core.Path.{◌≡◌, refl, subst}
use mathlib.Core.Logic.{inl, inr}
use mathlib.Core.Bool.{false}
use traintime_api.Common.Tests.{if◌then◌else◌, ◌==◌, ==_iff, Bool-cases}

module _ {A : Type 0} where
  abbrev pub at : ℕ → A → (ℕ → A) → ℕ → A
  at i a f j = if i == j then a else f j

  pub at_lem :
      (P : ℕ → A → Type 0) (i : ℕ) (a : A) (f : ℕ → A)
      → P i a
      → ((j : ℕ) → i == j ≡ false → P j (f j))
      → (j : ℕ) → P j (at i a f j)
  at_lem P i a f own others j = elim (Bool-cases (i == j)) [
    | inl same ↦ rw same (subst (λ (k : ℕ). P k a) ((==_iff i j).0 same) own)
    | inr other ↦ rw other (others j other)
  ]

  pub at_self : (i : ℕ) (a : A) (f : ℕ → A) → at i a f i ≡ a
  at_self i a f = rw ((==_iff i i).1 refl) refl
