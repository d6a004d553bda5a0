-- ===== src/Prelude/Ranges.antt =====
-- A test decided for all numbers of a range.
use Prim.Native.Nat.{ℕ, zero, suc, ◌+◌, ◌≤◌, ◌<◌}
use mathlib.Core.Path.{◌≡◌, ◌∙◌, refl, ap}
use mathlib.Core.Logic.{inl, inr}
use mathlib.Core.Bool.{Bool, true, false, ◌&&◌}
use native.Mathlib.Omega.{arith}
use nicof.Prelude.Tests.{◌==◌, Bool-cases}

-- A test holds at `count` numbers from `first` on.
unfoldable pub holds : (ℕ → Bool) → (first count : ℕ) → Bool
holds p first zero = true
holds p first (suc count) = p first && holds p (suc first) count

pub both : (a b : Bool) → (a && b) ≡ true → (a ≡ true) × (b ≡ true)
both true b e = (refl, e)
both false b e = absurd cc

pub holds-at :
    (p : ℕ → Bool) (count first c : ℕ)
    → holds p first count ≡ true
    → first ≤ c
    → c < first + count
    → p c ≡ true
unfolding holds
holds-at p zero first c h lo hi = absurd (omega arith)
holds-at p (suc count) first c h lo hi = elim (Bool-cases (first == c)) [
  | inl e ↦
      let same : first ≡ c = ground arith in
      ap p (omega (arith, same)) ∙ (both (p first) (holds p (suc first) count) h).0
  | inr n ↦
      let other : suc first ≤ c = ground arith in
      holds-at p count (suc first) c (both (p first) (holds p (suc first) count) h).1 other
        (omega arith)
]

pub same : (a b : ℕ) → (a == b) ≡ true → a ≡ b
same a b h = ground arith
