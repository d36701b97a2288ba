-- ===== src/Memory/Sizes.antt =====
-- include/besm-666/util/math.hpp: powers of two, on 64-bit values.
use besm.Prelude.{
  ℕ, zero, suc, ◌+◌, ◌-◌, ◌*◌, ◌/◌, ◌%◌, ◌^◌, ◌≤◌, ◌<◌, ◌==◌, ==_iff, ◌||◌, Bool, true, false, inl,
  inr, bit_and, ◌≡◌, refl, sym, ap, ◌∙◌, subst, arith, ◌⊎◌, ◌↔◌,
}
use besm.Prelude.Bits.{
  bit_and-IsDigitwise, bit_and-field, bit_and-mask, two-pow-add, two-pow-pos, le-mul_pos,
  div-lt_product,
}
use native.Mathlib.Nat.{pow-suc, mod-lt, mod_self, mod-eq_of_lt}
use besm.BitMagic.{sub, complement}

-- `Is2Pow`
unfoldable pub is_2pow : ℕ → Bool
unfolding sub
is_2pow value = (value == 0) || (bit_and value (sub 64 value 1) == 0)

-- `Nearest2PowDivident`
unfoldable pub nearest_2pow_divident : ℕ → ℕ → ℕ
unfolding sub complement
nearest_2pow_divident value divider2pow =
    bit_and ((value + divider2pow) % 2 ^ 64) (complement 64 (sub 64 divider2pow 1))

ones_above : (p q : ℕ) → 0 < p → 0 < q → q * p - 1 - (p - 1) ≡ (q - 1) * p
ones_above p zero hp hq = elim hq [ ]
ones_above p (suc q) hp hq = grind arith

-- For a power of two: the sum, rounded down.
pub nearest_2pow_divident_lem :
    (value k : ℕ)
    → k < 64
    → nearest_2pow_divident value (2 ^ k) ≡ (value + 2 ^ k) % 2 ^ 64 / 2 ^ k * 2 ^ k
unfolding nearest_2pow_divident complement sub
nearest_2pow_divident_lem value k h =
    let sum : 64 - k + k ≡ 64 = omega arith in
    let whole : 2 ^ (64 - k) * 2 ^ k ≡ 2 ^ 64 =
      subst (λ t. 2 ^ (64 - k) * 2 ^ k ≡ 2 ^ t) sum (sym (two-pow-add (64 - k) k)) in
    let le : 2 ^ k ≤ 2 ^ 64 =
      subst (λ t. 2 ^ k ≤ t) whole (le-mul_pos (2 ^ k) (2 ^ (64 - k)) (two-pow-pos (64 - k))) in
    let below : (2 ^ k + 2 ^ 64 - 1) % 2 ^ 64 ≡ 2 ^ k - 1 = omega (arith, two-pow-pos k, le) in
    let field = bit_and-field (64 - k) k ((value + 2 ^ k) % 2 ^ 64) in
    let small =
      div-lt_product ((value + 2 ^ k) % 2 ^ 64) (2 ^ (64 - k)) (2 ^ k) (two-pow-pos k)
        (rw whole (mod-lt (value + 2 ^ k) (two-pow-pos 64))) in
    let mask =
      subst (λ t. t - 1 - (2 ^ k - 1) ≡ (2 ^ (64 - k) - 1) * 2 ^ k) whole
        (ones_above (2 ^ k) (2 ^ (64 - k)) (two-pow-pos k) (two-pow-pos (64 - k))) in
    rw (below, mask) (field ∙ ap (λ (t : ℕ). t * 2 ^ k) (mod-eq_of_lt small))

bit_and_self_below : (n v : ℕ) → v ≤ n → bit_and v v ≡ v
bit_and_self_below n zero h = refl
bit_and_self_below zero (suc v) h = absurd (omega arith)
bit_and_self_below (suc n) (suc v) h =
    omega
      (arith, bit_and-IsDigitwise (suc v) (suc v), bit_and_self_below n (suc v / 2) (omega arith))

even_or_odd : (v : ℕ) → (v % 2 ≡ 0) ⊎ (v % 2 ≡ 1)
even_or_odd v = ground arith

power_below : (n v : ℕ) → v ≤ n → 0 < v → bit_and v (v - 1) ≡ 0 → (k : ℕ) × (v ≡ 2 ^ k)
power_below n zero h p e = absurd (omega arith)
power_below n (suc zero) h p e = (0, refl)
power_below zero (suc (suc v)) h p e = absurd (omega arith)
power_below (suc n) (suc (suc v)) h p e =
    let digit = bit_and-IsDigitwise (suc (suc v)) (suc (suc v) - 1) in
    elim (even_or_odd v) [
      | inl even ↦
          let halved : bit_and (suc (suc v) / 2) ((suc (suc v) - 1) / 2) ≡ 0 =
            omega (arith, digit, e) in
          let above : suc (v / 2) - 1 ≡ (suc (suc v) - 1) / 2 = omega arith in
          let whole : suc (v / 2) ≡ suc (suc v) / 2 = omega arith in
          let half : (k : ℕ) × (suc (v / 2) ≡ 2 ^ k) =
            power_below n (suc (v / 2)) (omega arith) (omega arith) (rw (above, whole) halved) in
          (suc half.0, omega (arith, half.1, pow-suc 2 half.0))
      | inr odd ↦ absurd (
          let same : (suc (suc v) - 1) / 2 ≡ suc (suc v) / 2 = omega arith in
          let self = bit_and_self_below (suc (suc v) / 2) (suc (suc v) / 2) (omega arith) in
          let sum : bit_and (suc (suc v) / 2) (suc (suc v) / 2) * 2 ≤ 0 =
            subst (λ (t : ℕ). bit_and (suc (suc v) / 2) t * 2 ≤ 0) same (omega (arith, digit, e)) in
          omega arith)
    ]

sub_one : (v : ℕ) → suc v < 2 ^ 64 → sub 64 (suc v) 1 ≡ suc v - 1
unfolding sub
sub_one v h = omega arith

pub is_2pow_lem : (v : ℕ) → v < 2 ^ 64 → (is_2pow v ≡ true) ↔ ((v ≡ 0) ⊎ ((k : ℕ) × (v ≡ 2 ^ k)))
unfolding is_2pow
is_2pow_lem zero h = (λ e. inl refl, λ c. refl)
is_2pow_lem (suc v) h =
    let more : suc v == 0 ≡ false = ground arith in
    let less : sub 64 (suc v) 1 ≡ suc v - 1 = sub_one v h in
    (
      λ e. inr (
          power_below (suc v) (suc v) (omega arith) (omega arith) (
            subst (λ t. bit_and (suc v) t ≡ 0) less
              ((==_iff (bit_and (suc v) (sub 64 (suc v) 1)) 0).0 (
                subst (λ (b : Bool). b || (bit_and (suc v) (sub 64 (suc v) 1) == 0) ≡ true) more
                  e)))),
      λ c. elim c [
        | inl z ↦ absurd (omega arith)
        | inr (k, e) ↦ rw more (
            (==_iff (bit_and (suc v) (sub 64 (suc v) 1)) 0).1
              (rw (less, e) (bit_and-mask k (2 ^ k) ∙ mod_self (2 ^ k))))
      ],
    )
