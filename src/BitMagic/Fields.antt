-- ===== src/BitMagic/Fields.antt =====
-- What the field operations of bit-magic.hpp compute, as arithmetic, at every width.
use besm.Prelude.{
  ℕ, zero, suc, ◌+◌, ◌-◌, ◌*◌, ◌/◌, ◌%◌, ◌^◌, ◌≤◌, ◌<◌, bit_and, bit_xor, ltb, if◌then◌else◌,
  Bool-cases, ltb→lt, ◌≡◌, ap, ◌∙◌, ◌⊎◌, inl, inr, arith,
}
use besm.Prelude.Bits.{
  suc-sub-one, two-pow-add, two-pow-pos, bit_and-field, bit_and-mask, bit_and_split, bit_and-ones,
  bit_or-zero, bit_or_split, bit_or-disjoint, mul-div_self, le-mul_pos, div-lt_product,
  bit_xor_split, bit_xor-zero,
}
use native.Mathlib.Nat.{mod-eq_of_lt, div-add-mod', mod-lt, div-one, mod_self, pow-suc}
use native.Mathlib.Numerals.{towards_numerals}
use besm.BitMagic.{
  shl, sub, complement, sign_extend, bit_mask, extract_bits, clear_bits, change_bits,
}

-- The width, cut at the two ends of a field.
pub two-pow-cut :
    (w bits from : ℕ) → bits + from ≤ w → 2 ^ w ≡ 2 ^ (w - (bits + from)) * (2 ^ bits * 2 ^ from)
two-pow-cut w bits from h =
    let e : w ≡ w - (bits + from) + (bits + from) = omega arith in
    ap (λ (t : ℕ). 2 ^ t) e
    ∙ two-pow-add (w - (bits + from)) (bits + from)
    ∙ ap (λ (t : ℕ). 2 ^ (w - (bits + from)) * t) (two-pow-add bits from)

pub two-pow-le : (a b : ℕ) → a ≤ b → 2 ^ a ≤ 2 ^ b
two-pow-le a b h =
    let e : b ≡ a + (b - a) = omega arith in
    grind (arith, ap (λ (t : ℕ). 2 ^ t) e, two-pow-add a (b - a), two-pow-pos (b - a))

pub two-pow-lt : (a b : ℕ) → a < b → 2 ^ a < 2 ^ b
two-pow-lt a b h = omega (arith, two-pow-le (a + 1) b (omega arith), two-pow-add a 1, two-pow-pos a)

-- `x < b` and `b * f` times something positive.
below_product : (x b f h : ℕ) → x < b → 0 < f → 0 < h → x * f < h * (b * f)
below_product x b f h p q r =
    let one_field : x * f + f ≤ b * f = grind arith in omega (arith, le-mul_pos (b * f) h r)

pub field-lt : (w bits from x : ℕ) → bits + from ≤ w → x < 2 ^ bits → x * 2 ^ from < 2 ^ w
field-lt w bits from x h k = rw (two-pow-cut w bits from h) (
    below_product x (2 ^ bits) (2 ^ from) (2 ^ (w - (bits + from))) k (two-pow-pos from)
      (two-pow-pos (w - (bits + from))))

lt_or_eq : (a b : ℕ) → a ≤ b → (a < b) ⊎ (a ≡ b)
lt_or_eq a b h = grind arith

pub shl-fits : (w x k : ℕ) → x * 2 ^ k < 2 ^ w → shl w x k ≡ x * 2 ^ k
unfolding shl
shl-fits w x k h = mod-eq_of_lt h

pub sub-fits : (w a b : ℕ) → b ≤ a → a < 2 ^ w → sub w a b ≡ a - b
unfolding sub
sub-fits w a b h k = grind arith

pub shl-one : (w k : ℕ) → k < w → shl w 1 k ≡ 2 ^ k
shl-one w k h = shl-fits w 1 k (omega (arith, two-pow-lt k w h)) ∙ omega arith

all_ones : (m : ℕ) → 0 < m → (1 * m % m + m - 1) % m ≡ m - 1
all_ones m h = grind (arith, mod_self m, mod-eq_of_lt {n = m - 1} {m = m})

pub low_mask_lem : (w bits : ℕ) → bits ≤ w → sub w (shl w 1 bits) 1 ≡ 2 ^ bits - 1
unfolding sub shl
low_mask_lem w bits h = elim (lt_or_eq bits w h) [
  | inl lt ↦ narrow lt
  | inr e ↦ rw e (all_ones (2 ^ w) (two-pow-pos w))
]
  where
    narrow : bits < w → sub w (shl w 1 bits) 1 ≡ 2 ^ bits - 1
    narrow lt =
        rw (shl-one w bits lt) (sub-fits w (2 ^ bits) 1 (two-pow-pos bits) (two-pow-lt bits w lt))

pub bit_mask_lem :
    (w bits from : ℕ) → bits + from ≤ w → bit_mask w bits from ≡ (2 ^ bits - 1) * 2 ^ from
bit_mask_lem w bits from h =
    unfold bit_mask in
    rw (low_mask_lem w bits (omega arith)) (
      shl-fits w (2 ^ bits - 1) from
        (field-lt w bits from (2 ^ bits - 1) h (omega (arith, two-pow-pos bits))))

-- `ExtractBits` is a shift and a remainder.
pub extract_bits_lem :
    (w bits from value : ℕ)
    → bits + from ≤ w
    → extract_bits w bits from value ≡ value / 2 ^ from % 2 ^ bits
unfolding extract_bits
extract_bits_lem w bits from value h =
    ap (λ (m : ℕ). bit_and value m / 2 ^ from) (bit_mask_lem w bits from h)
    ∙ ap (λ (t : ℕ). t / 2 ^ from) (bit_and-field bits from value)
    ∙ mul-div_self (2 ^ from) (value / 2 ^ from % 2 ^ bits) (two-pow-pos from)

-- The complement of a field's mask: ones above the field and below it.
complement_parts :
    (h b f : ℕ) → 0 < h → 0 < b → 0 < f → h * (b * f) - 1 - (b - 1) * f ≡ (h - 1) * b * f + (f - 1)
complement_parts zero b f ph pb pf = absurd (omega arith)
complement_parts (suc h) zero f ph pb pf = absurd (omega arith)
complement_parts (suc h) (suc b) zero ph pb pf = absurd (omega arith)
complement_parts (suc h) (suc b) (suc f) ph pb pf =
    rw (suc-sub-one h, suc-sub-one b, suc-sub-one f) (simp towards_numerals (grind arith))

module _ (w bits from : ℕ) (h : bits + from ≤ w) where
  abbrev above : ℕ
  above = 2 ^ (w - (bits + from))

  complement-bit_mask :
      complement w (bit_mask w bits from) ≡ (above - 1) * 2 ^ bits * 2 ^ from + (2 ^ from - 1)
  unfolding complement
  complement-bit_mask =
      rw (bit_mask_lem w bits from h, two-pow-cut w bits from h)
        (complement_parts above (2 ^ bits) (2 ^ from) (two-pow-pos (w - (bits + from)))
          (two-pow-pos bits) (two-pow-pos from))

  -- `ClearBits` zeroes the field and keeps what is above and below.
  pub clear_bits_lem :
      (value : ℕ)
      → value < 2 ^ w
      → clear_bits w bits from value
        ≡ value / 2 ^ from / 2 ^ bits * 2 ^ bits * 2 ^ from + value % 2 ^ from
  unfolding clear_bits
  clear_bits_lem value fits =
      let q = value / 2 ^ from in
      let r = value % 2 ^ from in
      let r-lt : r < 2 ^ from = mod-lt value (two-pow-pos from) in
      let q-lt : q < above * 2 ^ bits =
        div-lt_product value (above * 2 ^ bits) (2 ^ from) (two-pow-pos from)
          (omega (arith, two-pow-cut w bits from h)) in
      let high : q / 2 ^ bits < above = div-lt_product q above (2 ^ bits) (two-pow-pos bits) q-lt in
      rw complement-bit_mask (
        ground (
          arith,
          div-add-mod' value (2 ^ from),
          bit_and_split from q r ((above - 1) * 2 ^ bits) (2 ^ from - 1),
          bit_and-field (w - (bits + from)) bits q,
          bit_and-ones from r,
          mod-eq_of_lt high,
          two-pow-pos from,
        ))

  -- `ChangeBits` replaces the field by the low bits of the new value.
  pub change_bits_lem :
      (value new_bits : ℕ)
      → value < 2 ^ w
      → change_bits w bits from value new_bits
        ≡ (value / 2 ^ from / 2 ^ bits * 2 ^ bits + new_bits % 2 ^ bits) * 2 ^ from
          + value % 2 ^ from
  unfolding change_bits
  change_bits_lem value new_bits fits =
      let q = value / 2 ^ from / 2 ^ bits in
      let r = value % 2 ^ from in
      let n = new_bits % 2 ^ bits in
      let n-lt : n < 2 ^ bits = mod-lt new_bits (two-pow-pos bits) in
      rw
        (
          clear_bits_lem value fits,
          extract_bits_lem w bits 0 new_bits (omega arith),
          div-one new_bits,
          shl-fits w n from (field-lt w bits from n h n-lt),
        )
        (ground (
          arith,
          bit_or_split from (q * 2 ^ bits) r n 0 (mod-lt value (two-pow-pos from)),
          bit_or-disjoint bits q n n-lt,
          bit_or-zero r,
          two-pow-pos from,
        ))

-- Flipping the sign bit and subtracting it, by the sign bit's value.
flip_sign :
    (n w y : ℕ)
    → n < w
    → y < 2 ^ suc n
    → sub w (bit_xor y (2 ^ n)) (2 ^ n) ≡ (if ltb y (2 ^ n) then y else y + 2 ^ w - 2 ^ suc n)
flip_sign n w y h fits = elim (Bool-cases (ltb y (2 ^ n))) [
  | inl low ↦ rw low (positive (ltb→lt _ _ low))
  | inr high ↦ rw high (negative (ground arith))
]
  where
    r-lt : y % 2 ^ n < 2 ^ n
    r-lt = mod-lt y (two-pow-pos n)

    wide : 2 ^ n + 2 ^ n ≤ 2 ^ w
    wide = omega (arith, two-pow-le (suc n) w h, pow-suc 2 n)

    positive : y < 2 ^ n → sub w (bit_xor y (2 ^ n)) (2 ^ n) ≡ y
    positive low =
        let e : bit_xor y (2 ^ n) ≡ 2 ^ n + y =
          ground (arith, bit_xor_split n 0 y 1 0 low, bit_xor-zero y, two-pow-pos n) in
        rw (e, sub-fits w (2 ^ n + y) (2 ^ n) (omega arith) (omega (arith, wide))) (omega arith)

    negative : 2 ^ n ≤ y → sub w (bit_xor y (2 ^ n)) (2 ^ n) ≡ y + 2 ^ w - 2 ^ suc n
    negative high =
        let r-fits : y - 2 ^ n < 2 ^ n = omega (arith, pow-suc 2 n) in
        let e : bit_xor y (2 ^ n) ≡ y - 2 ^ n = ground (
          arith,
          bit_xor_split n 1 (y - 2 ^ n) 1 0 r-fits,
          bit_xor-zero (y - 2 ^ n),
          two-pow-pos n,
        ) in
        rw e (
          unfold sub in
          ground
            (arith, mod-eq_of_lt {n = y - 2 ^ n + 2 ^ w - 2 ^ n} {m = 2 ^ w}, pow-suc 2 n, wide))

-- `SignExtend` copies the top bit of the field into all the bits above it.
pub sign_extend_lem :
    (w n value : ℕ)
    → n < w
    → sign_extend w (suc n) value ≡ (
        if ltb (value % 2 ^ suc n) (2 ^ n)
        then value % 2 ^ suc n
        else value % 2 ^ suc n + 2 ^ w - 2 ^ suc n)
sign_extend_lem w n value h =
    unfold sign_extend in
    rw (low_mask_lem w (suc n) h, suc-sub-one n, shl-one w n h, bit_and-mask (suc n) value)
      (flip_sign n w (value % 2 ^ suc n) h (mod-lt value (two-pow-pos (suc n))))
