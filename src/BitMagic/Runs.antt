-- ===== src/BitMagic/Runs.antt =====
-- A mask that is one run of ones: gathering reads a field and scattering writes one.
use besm.Prelude.{ℕ, zero, suc, ◌+◌, ◌-◌, ◌*◌, ◌/◌, ◌%◌, ◌^◌, ◌≤◌, ◌<◌, ◌≡◌, sym, ◌∙◌, arith}
use besm.Prelude.Bits.{two-pow-pos, mul-two-pow}
use native.Mathlib.Nat.{pow-suc, pow-succ', div-div-eq-div-mul, div-one, mod-one}
use besm.BitMagic.Reference.{gather, scatter, mod-two-pow-suc}
use besm.BitMagic.Fields.{field-lt}
use besm.BitMagic.Masked.{extract_masked_lem, insert_masked_lem}
use besm.BitMagic.{extract_masked, insert_masked}

abbrev pub run : ℕ → ℕ → ℕ
run bits from = (2 ^ bits - 1) * 2 ^ from

div-two-pow-suc : (a k : ℕ) → a / 2 ^ suc k ≡ a / 2 / 2 ^ k
div-two-pow-suc a k = rw (pow-succ' 2 k) (sym (div-div-eq-div-mul a 2 (2 ^ k)))

run-suc_from :
    (bits from : ℕ) → (run bits (suc from) % 2 ≡ 0) × (run bits (suc from) / 2 ≡ run bits from)
run-suc_from bits from =
    (omega (arith, mul-two-pow (2 ^ bits - 1) from), omega (arith, mul-two-pow (2 ^ bits - 1) from))

run-suc_bits : (bits : ℕ) → (run (suc bits) 0 % 2 ≡ 1) × (run (suc bits) 0 / 2 ≡ run bits 0)
run-suc_bits bits = (
  omega (arith, pow-suc 2 bits, two-pow-pos bits),
  omega (arith, pow-suc 2 bits, two-pow-pos bits),
)

gather-run :
    (n bits from value : ℕ)
    → bits + from ≤ n
    → gather n (run bits from) value ≡ value / 2 ^ from % 2 ^ bits
unfolding gather
gather-run zero zero zero value h = omega arith
gather-run zero (suc bits) from value h = absurd (omega arith)
gather-run zero zero (suc from) value h = absurd (omega arith)
gather-run (suc n) bits (suc from) value h =
    let (even, half) = run-suc_from bits from in
    rw (even, half, div-two-pow-suc value from, gather)
      (gather-run n bits from (value / 2) (omega arith))
gather-run (suc n) zero zero value h = ground (arith, gather-run n zero zero (value / 2))
gather-run (suc n) (suc bits) zero value h =
    let (odd, half) = run-suc_bits bits in
    rw
      (
        odd,
        half,
        gather,
        gather-run n bits zero (value / 2) (omega arith),
        div-one value,
        div-one (value / 2),
      )
      (sym (mod-two-pow-suc value bits))

parts-suc :
    (p f b v : ℕ)
    → (p / 2 / 2 ^ f / 2 ^ b * 2 ^ b + v % 2 ^ b) * 2 ^ f * 2 + (p / 2 % 2 ^ f * 2 + p % 2)
      ≡ (p / 2 ^ suc f / 2 ^ b * 2 ^ b + v % 2 ^ b) * 2 ^ suc f + p % 2 ^ suc f
parts-suc p f b v =
    rw (div-two-pow-suc p f, mod-two-pow-suc p f)
      (omega (arith, mul-two-pow (p / 2 / 2 ^ f / 2 ^ b * 2 ^ b + v % 2 ^ b) f))

scatter-run :
    (n bits from value place : ℕ)
    → bits + from ≤ n
    → scatter n (run bits from) value place
      ≡ (place / 2 ^ from / 2 ^ bits * 2 ^ bits + value % 2 ^ bits) * 2 ^ from + place % 2 ^ from
unfolding scatter
scatter-run zero zero zero value place h = omega arith
scatter-run zero (suc bits) from value place h = absurd (omega arith)
scatter-run zero zero (suc from) value place h = absurd (omega arith)
scatter-run (suc n) bits (suc from) value place h =
    let (even, half) = run-suc_from bits from in
    rw (even, half, scatter, scatter-run n bits from value (place / 2) (omega arith))
      (omega (arith, parts-suc place from bits value))
scatter-run (suc n) zero zero value place h =
    ground (arith, scatter-run n zero zero value (place / 2))
scatter-run (suc n) (suc bits) zero value place h =
    let (odd, half) = run-suc_bits bits in
    rw
      (
        odd,
        half,
        scatter,
        scatter-run n bits zero (value / 2) (place / 2) (omega arith),
        div-one place,
        div-one (place / 2),
        mod-one place,
        mod-one (place / 2),
        mod-two-pow-suc value bits,
        div-two-pow-suc place bits,
      )
      (omega (arith, mul-two-pow (place / 2 / 2 ^ bits) bits))

run-lt : (n bits from : ℕ) → bits + from ≤ n → run bits from < 2 ^ n
run-lt n bits from h = field-lt n bits from (2 ^ bits - 1) h (omega (arith, two-pow-pos bits))

-- `ExtractMasked` under a run of ones.
pub extract_run :
    (bits from value : ℕ)
    → bits + from ≤ 64
    → value < 2 ^ 64
    → extract_masked 64 (run bits from) value ≡ value / 2 ^ from % 2 ^ bits
extract_run bits from value h v =
    extract_masked_lem 64 (run bits from) value (run-lt 64 bits from h) v
    ∙ gather-run 64 bits from value h

-- `InsertMasked` under a run of ones.
pub insert_run :
    (bits from value place : ℕ)
    → bits + from ≤ 64
    → value < 2 ^ 64
    → place < 2 ^ 64
    → insert_masked 64 (run bits from) value place
      ≡ (place / 2 ^ from / 2 ^ bits * 2 ^ bits + value % 2 ^ bits) * 2 ^ from + place % 2 ^ from
insert_run bits from value place h v p =
    insert_masked_lem 64 (run bits from) value place (run-lt 64 bits from h) v p
    ∙ scatter-run 64 bits from value place h
