-- ===== src/Hart/Numbers.antt =====
-- What the operators of the handlers compute, against two's complement and against each other.
use besm.Prelude.{
  ℕ, suc, ◌+◌, ◌-◌, ◌*◌, ◌/◌, ◌%◌, ◌^◌, ◌≤◌, ◌<◌, ltb, if◌then◌else◌, Bool-cases, inl, inr, ◌≡◌,
  ◌↔◌, ◌⊎◌, sym, ap, ◌∙◌, arith,
}
use besm.Prelude.Bits.{two-pow-pos, two-pow-add, div-of-parts, div-lt_product, suc-sub-one}
use native.Mathlib.Nat.{pow-suc, mod-eq_of_lt, mod-lt, div-le_self, div-add-mod', mul_comm}
use besm.BitMagic.{sign_extend}
use besm.BitMagic.Fields.{two-pow-le, sign_extend_lem}
use besm.Hart.Signed.{signify, unsignify, less, shift_right, widen}
use besm.Hart.Arithmetic.{signed_less}

half-lt : (n : ℕ) → 2 ^ n < 2 ^ suc n
half-lt n = omega (arith, two-pow-pos n, pow-suc 2 n)

under : (w x : ℕ) → x < 2 ^ w → (2 ^ w - 1 - x) % 2 ^ w ≡ 2 ^ w - 1 - x
under w x h = mod-eq_of_lt (omega arith)

-- `Unsignify` undoes `Signify`.
pub unsignify-signify : (w x : ℕ) → x < 2 ^ w → unsignify w (signify w x) ≡ x
unfolding signify unsignify
unsignify-signify w x h = elim (Bool-cases (ltb x (2 ^ (w - 1)))) [
  | inl small ↦ rw small (mod-eq_of_lt h)
  | inr big ↦ rw (big, under w x h) (omega arith)
]

-- The signed comparison is the unsigned one of the two values with their top bits flipped.
pub signed_less_lem :
    (a b : ℕ)
    → a < 2 ^ 64
    → b < 2 ^ 64
    → signed_less a b ≡ ltb ((a + 2 ^ 63) % 2 ^ 64) ((b + 2 ^ 63) % 2 ^ 64)
unfolding signify less
signed_less_lem a b p q = elim (Bool-cases (ltb a (2 ^ 63))) [
  | inl a_small ↦ elim (Bool-cases (ltb b (2 ^ 63))) [
    | inl b_small ↦ rw (a_small, b_small) (ground arith)
    | inr b_big ↦ rw (a_small, b_big) (ground arith)
  ]
  | inr a_big ↦ elim (Bool-cases (ltb b (2 ^ 63))) [
    | inl b_small ↦ rw (a_big, b_small) (ground arith)
    | inr b_big ↦ rw (a_big, b_big) (ground arith)
  ]
]

spread :
    (m value : ℕ)
    → value < m
    → m ≤ 2 ^ 64
    → 2 ^ 64 - 1 - (m - 1 - value) % 2 ^ 64 ≡ value + 2 ^ 64 - m
spread m value v h = omega arith

-- The widening of a load at `suc n` bits is the sign extension that the immediates get.
pub widen-sign_extend :
    (n value : ℕ) → n < 64 → value < 2 ^ suc n → widen (suc n) value ≡ sign_extend 64 (suc n) value
unfolding widen signify unsignify
widen-sign_extend n value h v = elim (Bool-cases (ltb value (2 ^ n))) [
  | inl small ↦
      rw (suc-sub-one n, small)
        (rw (sign_extend_lem 64 n value h, mod-eq_of_lt v, small)
          (mod-eq_of_lt (omega (arith, two-pow-le (suc n) 64 h))))
  | inr big ↦
      rw (suc-sub-one n, big)
        (rw (sign_extend_lem 64 n value h, mod-eq_of_lt v, big)
          (spread (2 ^ suc n) value v (two-pow-le (suc n) 64 h)))
]

whole : (k : ℕ) → k < 64 → 2 ^ 64 ≡ 2 ^ k * 2 ^ (64 - k)
whole k p = let e : 64 ≡ k + (64 - k) = omega arith in ap (λ t. 2 ^ t) e ∙ two-pow-add k (64 - k)

rest_of :
    (below_it above_it a y r : ℕ)
    → y ≡ below_it + r
    → r < a
    → below_it + a + above_it - 1 - y ≡ above_it + (a - 1 - r)
rest_of below_it above_it a y r e h = omega arith

spread_product : (a d e : ℕ) → a * (d + 1 + e) ≡ d * a + a + e * a
spread_product a d e = grind arith

regroup :
    (a b d y : ℕ)
    → 0 < a
    → d < b
    → y ≡ d * a + y % a
    → y % a < a
    → a * b - 1 - y ≡ (b - 1 - d) * a + (a - 1 - y % a)
regroup a b d y pos_a below parts rest =
    let e : b ≡ d + 1 + (b - 1 - d) = omega arith in
    rw (ap (λ t. a * t) e) (
      rw (spread_product a d (b - 1 - d))
        (rest_of (d * a) ((b - 1 - d) * a) a y (y % a) parts rest))

div-complement : (p q x : ℕ) → 0 < p → x < p * q → (p * q - 1 - x) / p ≡ q - 1 - x / p
div-complement p q x h l =
    ap (λ t. t / p)
      (regroup p q (x / p) x h (div-lt_product x q p h (rw (mul_comm q p) l))
        (sym (div-add-mod' x p)) (mod-lt x h))
    ∙ div-of-parts p (q - 1 - x / p) (p - 1 - x % p) (omega arith)

narrow : (x k : ℕ) → x < 2 ^ 64 → x / 2 ^ k % 2 ^ 64 ≡ x / 2 ^ k + 0
narrow x k h = omega (arith, div-le_self x (2 ^ k), mod-eq_of_lt h)

complement-shift :
    (x k : ℕ) → x < 2 ^ 64 → k < 64 → (2 ^ 64 - 1 - x) / 2 ^ k ≡ 2 ^ (64 - k) - 1 - x / 2 ^ k
complement-shift x k h p =
    ap (λ t. (t - 1 - x) / 2 ^ k) (whole k p)
    ∙ div-complement (2 ^ k) (2 ^ (64 - k)) x (two-pow-pos k) (rw⁻¹ (whole k p) h)

last_step : (q s : ℕ) → q < s → s ≤ 2 ^ 64 → 2 ^ 64 - 1 - (s - 1 - q) % 2 ^ 64 ≡ q + (2 ^ 64 - s)
last_step q s h l = omega arith

filled_above :
    (x k : ℕ)
    → x < 2 ^ 64
    → k < 64
    → 2 ^ 64 - 1 - (2 ^ 64 - 1 - x) / 2 ^ k % 2 ^ 64 ≡ x / 2 ^ k + (2 ^ 64 - 2 ^ (64 - k))
filled_above x k h p = rw (complement-shift x k h p) (
    last_step (x / 2 ^ k) (2 ^ (64 - k))
      (div-lt_product x (2 ^ (64 - k)) (2 ^ k) (two-pow-pos k)
        (rw (mul_comm (2 ^ (64 - k)) (2 ^ k)) (rw⁻¹ (whole k p) h)))
      (two-pow-le (64 - k) 64 (omega arith)))

-- An arithmetic shift is the logical one with the sign bit filled in above.
pub shift_right-fill :
    (x k : ℕ)
    → x < 2 ^ 64
    → k < 64
    → unsignify 64 (shift_right (signify 64 x) k)
      ≡ x / 2 ^ k + (if ltb x (2 ^ 63) then 0 else 2 ^ 64 - 2 ^ (64 - k))
unfolding signify unsignify shift_right
shift_right-fill x k h p = elim (Bool-cases (ltb x (2 ^ 63))) [
  | inl small ↦ rw small (narrow x k h)
  | inr big ↦ rw big (filled_above x k h p)
]

-- Sign extension of a jump's 21-bit offset at 20 bits is right exactly for the offsets of the
-- inner half of the range.
pub jal_offset_lem :
    (offset : ℕ)
    → offset < 2 ^ 21
    → (sign_extend 64 20 offset ≡ sign_extend 64 21 offset)
      ↔ ((offset < 2 ^ 19) ⊎ (2 ^ 21 - 2 ^ 19 ≤ offset))
jal_offset_lem offset h =
    rw (sign_extend_lem 64 19 offset (omega arith), sign_extend_lem 64 20 offset (omega arith))
      (ground arith, ground arith)

-- Sign extension of a branch's 13-bit offset at 12 bits is right exactly for the offsets of the
-- inner half of the range.
pub branch_offset_lem :
    (offset : ℕ)
    → offset < 2 ^ 13
    → (sign_extend 64 12 offset ≡ sign_extend 64 13 offset)
      ↔ ((offset < 2 ^ 11) ⊎ (2 ^ 13 - 2 ^ 11 ≤ offset))
branch_offset_lem offset h =
    rw (sign_extend_lem 64 11 offset (omega arith), sign_extend_lem 64 12 offset (omega arith))
      (ground arith, ground arith)
