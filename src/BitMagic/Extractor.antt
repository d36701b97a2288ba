-- ===== src/BitMagic/Extractor.antt =====
-- The template loop of `MaskedExtractor`, and what the two loops share.
use besm.Prelude.{
  ℕ, zero, suc, ◌+◌, ◌-◌, ◌*◌, ◌/◌, ◌%◌, ◌^◌, ◌≤◌, ◌<◌, ◌==◌, ◌≡◌, arith, Bool-cases, inl, inr,
  bit_or,
}
use besm.Prelude.Bits.{
  two-pow-pos, two-pow-add, mod-two-pow-add, div-two-pow-add, bit_or-disjoint_low,
}
use native.Mathlib.Nat.{mod-lt}
use besm.BitMagic.Fields.{extract_bits_lem, shl-fits, field-lt}
use besm.BitMagic.Reference.{gather}
use besm.BitMagic.{shl, extract_bits, masked_extractor}

pub grown :
    (a series pos value : ℕ)
    → pos ≡ a + series
    → value / 2 ^ a % 2 ^ (series + 1)
      ≡ value / 2 ^ pos % 2 * 2 ^ series + value / 2 ^ a % 2 ^ series
grown a series pos value at_pos =
    rw (at_pos, div-two-pow-add value a series) (mod-two-pow-add (value / 2 ^ a) series 1)

pub regroup_longer : (g s d x f : ℕ) → (g * (s * 2) + (d * s + x)) * f ≡ ((g * 2 + d) * s + x) * f
regroup_longer g s d x f = omega arith

pub packed : (x n y m : ℕ) → x < n → y < m → x * m + y < m * n
packed x n y m p q = grind arith

pub scaled : (x b f : ℕ) → x < b → 0 < f → x * f < f * b
scaled x b f p q = grind arith

pub regroup_done : (g s x f : ℕ) → g * (f * s) + x * f ≡ (g * s + x) * f
regroup_done g s x f = omega arith

pub joined :
    (g x series filled : ℕ)
    → x < 2 ^ series
    → (v : ℕ)
    → bit_or (x * 2 ^ filled) ((g * 1 + v % 1) * 2 ^ (filled + series))
      ≡ (g * 2 ^ series + x) * 2 ^ filled
joined g x series filled h v =
    let low : x * 2 ^ filled < 2 ^ (filled + series) =
      rw (two-pow-add filled series) (scaled x (2 ^ series) (2 ^ filled) h (two-pow-pos filled)) in
    let e : g * 1 + v % 1 ≡ g = omega arith in
    rw (e, bit_or-disjoint_low (filled + series) g (x * 2 ^ filled) low, two-pow-add filled series)
      (regroup_done g (2 ^ series) x (2 ^ filled))

module _ (w mask : ℕ) where
  pub bit_at : (pos : ℕ) → pos + 1 ≤ w → extract_bits w 1 pos mask ≡ mask / 2 ^ pos % 2
  bit_at pos h = extract_bits_lem w 1 pos mask (omega arith)

  pub series_moved :
      (a series filled value : ℕ)
      → series + a ≤ w
      → filled ≤ a
      → shl w (extract_bits w series a value) filled ≡ value / 2 ^ a % 2 ^ series * 2 ^ filled
  series_moved a series filled value fits below = rw (extract_bits_lem w series a value fits) (
      shl-fits w (value / 2 ^ a % 2 ^ series) filled (
        field-lt w series filled (value / 2 ^ a % 2 ^ series) (omega arith)
          (mod-lt (value / 2 ^ a) (two-pow-pos series))))

  -- The loop has gathered `series` bits from `a` on, and the first `filled` bits are done.
  pub masked_extractor_lem :
      (left a series filled pos value : ℕ)
      → pos ≡ a + series
      → left + pos ≡ w
      → filled ≤ a
      → masked_extractor w mask left pos series filled value
        ≡ (gather left (mask / 2 ^ pos) (value / 2 ^ pos) * 2 ^ series + value / 2 ^ a % 2 ^ series)
          * 2 ^ filled
  unfolding masked_extractor gather
  masked_extractor_lem zero a zero filled pos value at_pos ends below = ground arith
  masked_extractor_lem zero a (suc series) filled pos value at_pos ends below =
      let off : w - suc series ≡ a = omega arith in
      rw off (ground (arith, series_moved a (suc series) filled value (omega arith) below))
  masked_extractor_lem (suc left) a series filled pos value at_pos ends below =
      let off : pos - series ≡ a = omega arith in
      rw
        (
          bit_at pos (omega arith),
          masked_extractor,
          gather,
          ← div-two-pow-add mask pos 1,
          ← div-two-pow-add value pos 1,
        )
        (elim (Bool-cases (mask / 2 ^ pos % 2 == 0)) [
          | inl clear ↦
              rw (clear, masked_extractor, gather)
                (rw
                  (
                    off,
                    masked_extractor_lem left (pos + 1) 0 (filled + series) (pos + 1) value
                        (omega arith) (omega arith) (omega arith),
                    series_moved a series filled value (omega arith) below,
                  )
                  (joined _ (value / 2 ^ a % 2 ^ series) series filled
                    (mod-lt _ (two-pow-pos series)) _))
          | inr taken ↦
              rw (taken, masked_extractor, gather)
                (rw
                  (
                    masked_extractor_lem left a (series + 1) filled (pos + 1) value (omega arith)
                        (omega arith) below,
                    grown a series pos value at_pos,
                    two-pow-add series 1,
                  )
                  (regroup_longer _ _ _ _ _))
        ])
