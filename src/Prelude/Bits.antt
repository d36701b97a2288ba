-- ===== src/Prelude/Bits.antt =====
-- The laws of `&`, `|` and `^` on native numbers, for every width: each operation acts on the
-- low `k` bits and on the rest apart.
use Prim.Native.Nat.{
  ℕ, zero, suc, ◌+◌, ◌-◌, ◌*◌, ◌/◌, ◌%◌, ◌^◌, ◌≤◌, ◌<◌, min, max, bit_and, bit_or, bit_xor, digits,
  bitwise, differ, bit_and-bitwise, bit_or-bitwise, bit_xor-bitwise,
}
use Prim.Native.Nat.add
use mathlib.Core.Path.{◌≡◌, refl, sym, ap, ◌∙◌}
use native.Mathlib.Nat.{pow-suc, one-le-pow, mod-lt, div-add-mod', div-div-eq-div-mul}
use native.Mathlib.Omega.{arith}

-- One more unit of fuel than the number has digits changes nothing.
enough_digits :
    (z : ℕ → ℕ) (f : ℕ → ℕ → ℕ) (n m a b : ℕ) → a ≤ n → a ≤ m → digits z f n a b ≡ digits z f m a b
enough_digits z f zero zero a b p q = refl
enough_digits z f (suc n) zero zero b p q = refl
enough_digits z f zero (suc m) zero b p q = refl
enough_digits z f (suc n) (suc m) zero b p q = refl
enough_digits z f zero m (suc a) b p q = absurd (omega arith)
enough_digits z f (suc n) zero (suc a) b p q = absurd (omega arith)
enough_digits z f (suc n) (suc m) (suc a) b p q =
    omega (arith, enough_digits z f n m (suc a / 2) (b / 2) (omega arith) (omega arith))

-- An operation that goes digit by digit.
abbrev pub IsDigitwise : (ℕ → ℕ → ℕ) → (ℕ → ℕ → ℕ) → Type 0
IsDigitwise op f = (a b : ℕ) → op a b ≡ op (a / 2) (b / 2) * 2 + f (a % 2) (b % 2)

module _ (z : ℕ → ℕ) (f : ℕ → ℕ → ℕ) (base : (b : ℕ) → z b ≡ z (b / 2) * 2 + f 0 (b % 2)) where
  bitwise_step : IsDigitwise (bitwise z f) f
  bitwise_step zero b = base b
  bitwise_step (suc a) b =
      omega (arith, enough_digits z f a (suc a / 2) (suc a / 2) (b / 2) (omega arith) (omega arith))

pub bit_and-IsDigitwise : IsDigitwise bit_and min
bit_and-IsDigitwise a b = simp bit_and-bitwise (bitwise_step (λ y. 0) min (λ y. omega arith) a b)

pub bit_or-IsDigitwise : IsDigitwise bit_or max
bit_or-IsDigitwise a b = simp bit_or-bitwise (bitwise_step (λ y. y) max (λ y. omega arith) a b)

differ-zero : (d : ℕ) → d < 2 → differ 0 d ≡ d
differ-zero zero h = refl
differ-zero (suc zero) h = refl
differ-zero (suc (suc d)) h = absurd (omega arith)

pub bit_xor-IsDigitwise : IsDigitwise bit_xor differ
bit_xor-IsDigitwise a b =
    simp bit_xor-bitwise
      (bitwise_step (λ y. y) differ (λ y. omega (arith, differ-zero (y % 2) (omega arith))) a b)

pub mul-two-pow : (q k : ℕ) → q * 2 ^ suc k ≡ q * 2 ^ k * 2
mul-two-pow q k = omega (arith, ap (λ (t : ℕ). q * t) (pow-suc 2 k))

-- What an operation on digits that fixes 0 does to a number in two parts.
module _ (op : ℕ → ℕ → ℕ) (f : ℕ → ℕ → ℕ) (step : IsDigitwise op f) (f_zero : f 0 0 ≡ 0) where
  op_zero : op 0 0 ≡ 0
  op_zero = omega (arith, step 0 0)

  op_split :
      (k q r p s : ℕ)
      → r < 2 ^ k
      → s < 2 ^ k
      → op (q * 2 ^ k + r) (p * 2 ^ k + s) ≡ op q p * 2 ^ k + op r s
  op_split zero q r p s hr hs = ground (arith, op_zero)
  op_split (suc k) q r p s hr hs = ground (
    arith,
    step (q * 2 ^ suc k + r) (p * 2 ^ suc k + s),
    step r s,
    pow-suc 2 k,
    mul-two-pow q k,
    mul-two-pow p k,
    mul-two-pow (op q p) k,
    op_split k q (r / 2) p (s / 2) (omega (arith, pow-suc 2 k)) (omega (arith, pow-suc 2 k)),
  )

  module _ (small : (a b : ℕ) → a < 2 → b < 2 → f a b < 2) where
    op-lt : (k r s : ℕ) → r < 2 ^ k → s < 2 ^ k → op r s < 2 ^ k
    op-lt zero r s hr hs = ground (arith, op_zero)
    op-lt (suc k) r s hr hs = ground (
      arith,
      step r s,
      small (r % 2) (s % 2),
      pow-suc 2 k,
      op-lt k (r / 2) (s / 2) (omega (arith, pow-suc 2 k)) (omega (arith, pow-suc 2 k)),
    )

min-lt : (a b : ℕ) → a < 2 → b < 2 → min a b < 2
min-lt a b p q = omega arith

max-lt : (a b : ℕ) → a < 2 → b < 2 → max a b < 2
max-lt a b p q = omega arith

pub bit_and_split :
    (k q r p s : ℕ)
    → r < 2 ^ k
    → s < 2 ^ k
    → bit_and (q * 2 ^ k + r) (p * 2 ^ k + s) ≡ bit_and q p * 2 ^ k + bit_and r s
bit_and_split = op_split bit_and min bit_and-IsDigitwise refl

pub bit_or_split :
    (k q r p s : ℕ)
    → r < 2 ^ k
    → s < 2 ^ k
    → bit_or (q * 2 ^ k + r) (p * 2 ^ k + s) ≡ bit_or q p * 2 ^ k + bit_or r s
bit_or_split = op_split bit_or max bit_or-IsDigitwise refl

pub bit_xor_split :
    (k q r p s : ℕ)
    → r < 2 ^ k
    → s < 2 ^ k
    → bit_xor (q * 2 ^ k + r) (p * 2 ^ k + s) ≡ bit_xor q p * 2 ^ k + bit_xor r s
bit_xor_split = op_split bit_xor differ bit_xor-IsDigitwise refl

pub bit_or-lt : (k r s : ℕ) → r < 2 ^ k → s < 2 ^ k → bit_or r s < 2 ^ k
bit_or-lt = op-lt bit_or max bit_or-IsDigitwise refl max-lt

pub bit_and-lt : (k r s : ℕ) → r < 2 ^ k → s < 2 ^ k → bit_and r s < 2 ^ k
bit_and-lt = op-lt bit_and min bit_and-IsDigitwise refl min-lt

-- Zero on either side.
pub zero-bit_and : (b : ℕ) → bit_and 0 b ≡ 0
zero-bit_and b = bit_and-bitwise 0 b

pub zero-bit_or : (b : ℕ) → bit_or 0 b ≡ b
zero-bit_or b = bit_or-bitwise 0 b

pub zero-bit_xor : (b : ℕ) → bit_xor 0 b ≡ b
zero-bit_xor b = bit_xor-bitwise 0 b

bit_and-zero_below : (n a : ℕ) → a ≤ n → bit_and a 0 ≡ 0
bit_and-zero_below n zero h = refl
bit_and-zero_below zero (suc a) h = absurd (omega arith)
bit_and-zero_below (suc n) (suc a) h =
    omega (arith, bit_and-IsDigitwise (suc a) 0, bit_and-zero_below n (suc a / 2) (omega arith))

bit_or-zero_below : (n a : ℕ) → a ≤ n → bit_or a 0 ≡ a
bit_or-zero_below n zero h = refl
bit_or-zero_below zero (suc a) h = absurd (omega arith)
bit_or-zero_below (suc n) (suc a) h =
    omega (arith, bit_or-IsDigitwise (suc a) 0, bit_or-zero_below n (suc a / 2) (omega arith))

differ_zero : (d : ℕ) → d < 2 → differ d 0 ≡ d
differ_zero zero h = refl
differ_zero (suc zero) h = refl
differ_zero (suc (suc d)) h = absurd (omega arith)

bit_xor-zero_below : (n a : ℕ) → a ≤ n → bit_xor a 0 ≡ a
bit_xor-zero_below n zero h = refl
bit_xor-zero_below zero (suc a) h = absurd (omega arith)
bit_xor-zero_below (suc n) (suc a) h = omega (
  arith,
  bit_xor-IsDigitwise (suc a) 0,
  differ_zero (suc a % 2) (omega arith),
  bit_xor-zero_below n (suc a / 2) (omega arith),
)

pub bit_and-zero : (a : ℕ) → bit_and a 0 ≡ 0
bit_and-zero a = bit_and-zero_below a a (omega arith)

pub bit_or-zero : (a : ℕ) → bit_or a 0 ≡ a
bit_or-zero a = bit_or-zero_below a a (omega arith)

pub bit_xor-zero : (a : ℕ) → bit_xor a 0 ≡ a
bit_xor-zero a = bit_xor-zero_below a a (omega arith)

-- Fields that do not overlap add up.
pub bit_or-disjoint : (k q r : ℕ) → r < 2 ^ k → bit_or (q * 2 ^ k) r ≡ q * 2 ^ k + r
bit_or-disjoint k q r h =
    ground (arith, bit_or_split k q 0 0 r, one-le-pow k 2, bit_or-zero q, zero-bit_or r)

pub bit_or-disjoint_low : (k q r : ℕ) → r < 2 ^ k → bit_or r (q * 2 ^ k) ≡ q * 2 ^ k + r
bit_or-disjoint_low k q r h =
    ground (arith, bit_or_split k 0 r q 0, one-le-pow k 2, bit_or-zero r, zero-bit_or q)

-- Ones keep what lies below them.
pub bit_and-ones : (k r : ℕ) → r < 2 ^ k → bit_and r (2 ^ k - 1) ≡ r
bit_and-ones zero r h = ground (arith, bit_and-zero r)
bit_and-ones (suc k) r h = ground (
  arith,
  pow-suc 2 k,
  one-le-pow k 2,
  bit_and-IsDigitwise r (2 ^ suc k - 1),
  bit_and-ones k (r / 2) (omega (arith, pow-suc 2 k)),
)

-- `a & (2 ^ k - 1)` is `a % 2 ^ k`.
pub bit_and-mask : (k a : ℕ) → bit_and a (2 ^ k - 1) ≡ a % 2 ^ k
bit_and-mask k a = ground (
  arith,
  one-le-pow k 2,
  bit_and_split k (a / 2 ^ k) (a % 2 ^ k) 0 (2 ^ k - 1),
  bit_and-zero (a / 2 ^ k),
  bit_and-ones k (a % 2 ^ k),
)

-- A mask of `b` ones above `f` zeros.
pub bit_and-field : (b f a : ℕ) → bit_and a ((2 ^ b - 1) * 2 ^ f) ≡ a / 2 ^ f % 2 ^ b * 2 ^ f
bit_and-field b f a = ground (
  arith,
  one-le-pow f 2,
  bit_and_split f (a / 2 ^ f) (a % 2 ^ f) (2 ^ b - 1) 0,
  bit_and-zero (a % 2 ^ f),
  bit_and-mask b (a / 2 ^ f),
)

pub two-pow-add : (a b : ℕ) → 2 ^ (a + b) ≡ 2 ^ a * 2 ^ b
two-pow-add a zero = ground arith
two-pow-add a (suc b) = ground (
  arith,
  two-pow-add a b,
  ap (λ (t : ℕ). 2 ^ t) (add.suc a b),
  pow-suc 2 (a + b),
  ap (λ (t : ℕ). 2 ^ a * t) (pow-suc 2 b),
)

pub two-pow-pos : (k : ℕ) → 0 < 2 ^ k
two-pow-pos k = one-le-pow k 2 (omega arith)

-- `q * b + r` with `r < b`.
pub div-of-parts : (b q r : ℕ) → r < b → (q * b + r) / b ≡ q
div-of-parts b q r h = grind arith

pub mod-of-parts : (b q r : ℕ) → r < b → (q * b + r) % b ≡ r
mod-of-parts b q r h = grind arith

pub mul-div_self : (f x : ℕ) → 0 < f → x * f / f ≡ x
mul-div_self f x h = grind arith

pub le-mul_pos : (y h : ℕ) → 0 < h → y ≤ h * y
le-mul_pos y h p = grind arith

pub div-lt_product : (v h b : ℕ) → 0 < b → v < h * b → v / b < h
div-lt_product v h b p q = grind arith

-- A remainder by a product, in two steps.
pub mod-mul : (a b c : ℕ) → 0 < b → 0 < c → a % (b * c) ≡ a / b % c * b + a % b
mod-mul a b c pb pc =
    let r : a % b < b = mod-lt a pb in
    let s : a / b % c < c = mod-lt (a / b) pc in
    let small : a / b % c * b + a % b < b * c = low_part (a / b % c) c (a % b) b s r in
    let parts : a ≡ a / b / c * (b * c) + (a / b % c * b + a % b) =
      omega (arith, div-add-mod' a b, ap (λ (t : ℕ). t * b) (div-add-mod' (a / b) c)) in
    ap (λ (t : ℕ). t % (b * c)) parts ∙ mod-of-parts (b * c) (a / b / c) _ small
  where
    low_part : (x n y m : ℕ) → x < n → y < m → x * m + y < m * n
    low_part x n y m p q = grind arith

pub mod-two-pow-add : (a j k : ℕ) → a % 2 ^ (j + k) ≡ a / 2 ^ j % 2 ^ k * 2 ^ j + a % 2 ^ j
mod-two-pow-add a j k =
    rw (two-pow-add j k) (mod-mul a (2 ^ j) (2 ^ k) (two-pow-pos j) (two-pow-pos k))

pub div-two-pow-add : (a j k : ℕ) → a / 2 ^ (j + k) ≡ a / 2 ^ j / 2 ^ k
div-two-pow-add a j k = rw (two-pow-add j k) (sym (div-div-eq-div-mul a (2 ^ j) (2 ^ k)))

-- A field is put into a gap of zeros.
pub bit_or_insert :
    (k m q y r : ℕ)
    → y < 2 ^ m
    → r < 2 ^ k
    → bit_or (q * 2 ^ m * 2 ^ k + r) (y * 2 ^ k) ≡ (q * 2 ^ m + y) * 2 ^ k + r
bit_or_insert k m q y r hy hr = ground (
  arith,
  bit_or_split k (q * 2 ^ m) r y 0 hr,
  bit_or-disjoint m q y hy,
  bit_or-zero r,
  two-pow-pos k,
)

pub suc-sub-one : (n : ℕ) → suc n - 1 ≡ n
suc-sub-one n = omega arith
