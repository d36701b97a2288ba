-- ===== src/BitMagic/Reference.antt =====
-- What gathering and scattering bits under a mask mean, one bit at a time: bit `i` of `n` is taken
-- exactly when bit `i` of the mask is set.
use besm.Prelude.{
  ℕ, zero, suc, ◌+◌, ◌-◌, ◌*◌, ◌/◌, ◌%◌, ◌^◌, ◌<◌, ◌==◌, if◌then◌else◌, ◌≡◌, refl, arith, ◌⊎◌, ◌≢◌,
}
use native.Mathlib.Nat.{pow-suc, pow-succ'}
use besm.Prelude.Bits.{mod-mul, two-pow-pos}

-- The bits of `value` under the mask, moved together.
unfoldable pub gather : ℕ → ℕ → ℕ → ℕ
gather zero mask value = 0
gather (suc n) mask value =
    let rest = gather n (mask / 2) (value / 2) in
    if mask % 2 == 0 then rest else rest * 2 + value % 2

-- `place`, with the low bits of `value` put under the mask.
unfoldable pub scatter : ℕ → ℕ → ℕ → ℕ → ℕ
scatter zero mask value place = place
scatter (suc n) mask value place =
    let (rest, bit) = if mask % 2 == 0 then (value, place) else (value / 2, value) in
    scatter n (mask / 2) rest (place / 2) * 2 + bit % 2

-- How many bits the mask has.
unfoldable pub ones : ℕ → ℕ → ℕ
ones zero mask = 0
ones (suc n) mask = ones n (mask / 2) + mask % 2

pub mod-two-pow-suc : (a k : ℕ) → a % 2 ^ suc k ≡ a / 2 % 2 ^ k * 2 + a % 2
mod-two-pow-suc a k = rw (pow-succ' 2 k) (mod-mul a 2 (2 ^ k) (omega arith) (two-pow-pos k))

ones-step :
    (n mask : ℕ) → mask % 2 ≢ 0 → 2 ^ (ones n (mask / 2) + mask % 2) ≡ 2 ^ suc (ones n (mask / 2))
ones-step n mask h =
    let e : ones n (mask / 2) + mask % 2 ≡ suc (ones n (mask / 2)) = omega arith in rw e

-- Gathering what was scattered gives the low bits of the value.
pub gather-scatter :
    (n mask value place : ℕ) → gather n mask (scatter n mask value place) ≡ value % 2 ^ ones n mask
unfolding gather scatter ones
gather-scatter zero mask value place = omega arith
gather-scatter (suc n) mask value place = ground (
  arith,
  gather-scatter n (mask / 2) value (place / 2),
  gather-scatter n (mask / 2) (value / 2) (place / 2),
  mod-two-pow-suc value (ones n (mask / 2)),
  ones-step n mask,
)

-- Scattering what was gathered changes nothing.
pub scatter-gather : (n mask place : ℕ) → scatter n mask (gather n mask place) place ≡ place
unfolding gather scatter
scatter-gather zero mask place = refl
scatter-gather (suc n) mask place = ground (arith, scatter-gather n (mask / 2) (place / 2))

-- No bit below `n` is in both masks.
abbrev pub Apart : ℕ → ℕ → ℕ → Type 0
Apart zero mask other = Unit
Apart (suc n) mask other = ((mask % 2 ≡ 0) ⊎ (other % 2 ≡ 0)) × Apart n (mask / 2) (other / 2)

-- The bits outside the mask are left alone.
pub gather-scatter-Apart :
    (n mask other value place : ℕ)
    → Apart n mask other
    → gather n other (scatter n mask value place) ≡ gather n other place
unfolding gather scatter
gather-scatter-Apart zero mask other value place apart = refl
gather-scatter-Apart (suc n) mask other value place apart = ground (
  arith,
  gather-scatter-Apart n (mask / 2) (other / 2) value (place / 2) apart.1,
  gather-scatter-Apart n (mask / 2) (other / 2) (value / 2) (place / 2) apart.1,
)

pub scatter-lt : (n mask value place : ℕ) → place < 2 ^ n → scatter n mask value place < 2 ^ n
unfolding scatter
scatter-lt zero mask value place h = h
scatter-lt (suc n) mask value place h = ground (
  arith,
  pow-suc 2 n,
  scatter-lt n (mask / 2) value (place / 2) (omega (arith, pow-suc 2 n)),
  scatter-lt n (mask / 2) (value / 2) (place / 2) (omega (arith, pow-suc 2 n)),
)

-- Under a mask of ones both are the value itself.
pub gather_full :
    (n mask value : ℕ) → mask ≡ 2 ^ n - 1 → value < 2 ^ n → gather n mask value ≡ value
unfolding gather
gather_full zero mask value e h = omega arith
gather_full (suc n) mask value e h = ground (
  arith,
  gather_full n (mask / 2) (value / 2) (omega (arith, pow-suc 2 n)) (omega (arith, pow-suc 2 n)),
  pow-suc 2 n,
  two-pow-pos n,
)

pub scatter_full :
    (n mask value place : ℕ)
    → mask ≡ 2 ^ n - 1
    → value < 2 ^ n
    → place < 2 ^ n
    → scatter n mask value place ≡ value
unfolding scatter
scatter_full zero mask value place e h k = omega arith
scatter_full (suc n) mask value place e h k = ground (
  arith,
  scatter_full n (mask / 2) (value / 2) (place / 2) (omega (arith, pow-suc 2 n))
      (omega (arith, pow-suc 2 n)) (omega (arith, pow-suc 2 n)),
  pow-suc 2 n,
  two-pow-pos n,
)
