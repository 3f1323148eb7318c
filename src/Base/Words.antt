-- ===== src/Base/Words.antt =====
-- 64-bit words (`usize`, `u64`): wrapping sums and differences, the sign of a difference, and
-- remainders by a capacity.
use Prim.Native.Nat.{ℕ, ◌+◌, ◌-◌, ◌%◌, ◌^◌, ◌<◌, ◌∣◌, Ordering}
use mathlib.Core.Path.{◌≡◌, ◌∙◌}
use mathlib.Core.Logic.{◌≢◌}
use native.Mathlib.Omega.{arith}
use native.Mathlib.Nat.{mod-lt, mod-eq_of_lt, mod-eq-sub-mod, mod-add-mod, mod-mod_of_dvd}
use dtact.Base.Tests.{ltb, ◌==◌, if◌then◌else◌}

abbrev pub word_mod : ℕ
word_mod = 2 ^ 64

-- `a.wrapping_add(b)` and `a.wrapping_sub(b)` on 64-bit words.
abbrev pub wrapping_add : ℕ → ℕ → ℕ
wrapping_add a b = (a + b) % word_mod

abbrev pub wrapping_sub : ℕ → ℕ → ℕ
wrapping_sub a b = (a + word_mod - b) % word_mod

-- `(a as isize - b as isize).cmp(&0)`.
unfoldable pub signed_cmp : ℕ → ℕ → Ordering
signed_cmp a b =
    if wrapping_sub a b == 0
    then Ordering.eq
    else if ltb (wrapping_sub a b) (2 ^ 63)
    then Ordering.gt
    else Ordering.lt

pub signed_cmp_self : (a : ℕ) → a < 2 ^ 63 → signed_cmp a a ≡ Ordering.eq
unfolding signed_cmp
signed_cmp_self a h = ground arith

pub signed_cmp_lt : (a b : ℕ) → a < b → b < 2 ^ 63 → signed_cmp a b ≡ Ordering.lt
unfolding signed_cmp
signed_cmp_lt a b h k = ground arith

pub signed_cmp_gt : (a b : ℕ) → b < a → a < 2 ^ 63 → signed_cmp a b ≡ Ordering.gt
unfolding signed_cmp
signed_cmp_gt a b h k = ground arith

-- A sum that wraps at a multiple of the capacity names the same place of a ring.
pub wrapping_add-mod : (c a b : ℕ) → c ∣ word_mod → wrapping_add a b % c ≡ (a + b) % c
wrapping_add-mod c a b d = mod-mod_of_dvd c (a + b) d

pub wrapping_add-small : (a b : ℕ) → a + b < 2 ^ 64 → wrapping_add a b ≡ a + b
wrapping_add-small a b h = mod-eq_of_lt h

-- Positions less than a capacity apart name different places.
mod-ne_step : (c r d : ℕ) → r < c → 0 < d → d < c → (r + d) % c ≢ r
mod-ne_step c r d hr hd hc e = grind (arith, mod-eq_of_lt, mod-eq-sub-mod)

pub mod-ne : (c i d : ℕ) → 0 < d → d < c → (i + d) % c ≢ i % c
mod-ne c i d hd hc e =
    mod-ne_step c (i % c) d (mod-lt i (omega arith)) hd hc (mod-add-mod i c d ∙ e)
