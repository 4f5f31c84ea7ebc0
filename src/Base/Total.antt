-- ===== src/Base/Total.antt =====
-- How many numbers below a bound pass a test.
use Prim.Native.Nat.{ℕ, zero, suc, ◌+◌, ◌≤◌, ◌<◌}
use mathlib.Core.Path.{◌≡◌}
use mathlib.Core.Bool.{Bool, true, false}
use native.Mathlib.Omega.{arith}
use pluggable_sharded_fault.Base.Tests.{eqb_iff, if◌then◌else◌}

pub total : (ℕ → Bool) → ℕ → ℕ
total test zero = 0
total test (suc n) = total test n + (if test n then 1 else 0)

pub total-le :
    (f g : ℕ → Bool) (n : ℕ) → ((v : ℕ) → f v ≡ true → g v ≡ true) → total f n ≤ total g n
unfolding total
total-le f g zero h = omega arith
total-le f g (suc n) h = ground (arith, total-le f g n h, h n)

-- A voter of `g` that is none of `f`.
pub total-lt :
    (f g : ℕ → Bool) (n c : ℕ)
    → c < n
    → ((v : ℕ) → f v ≡ true → g v ≡ true)
    → f c ≡ false
    → g c ≡ true
    → total f n + 1 ≤ total g n
unfolding total
total-lt f g zero c lt h fc gc = absurd (omega arith)
total-lt f g (suc n) c lt h fc gc =
    ground (arith, total-lt f g n c, total-le f g n h, h n, eqb_iff c n)

-- Two sets of voters that do not meet.
pub total_disjoint :
    (f g : ℕ → Bool) (n : ℕ) → ((v : ℕ) → f v ≡ true → g v ≡ false) → total f n + total g n ≤ n
unfolding total
total_disjoint f g zero h = omega arith
total_disjoint f g (suc n) h = ground (arith, total_disjoint f g n h, h n)
