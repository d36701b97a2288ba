-- ===== src/BitMagic/Masked.antt =====
-- The template loops of bit-magic.hpp meet the bit-by-bit reference.
use besm.Prelude.{ℕ, ◌-◌, ◌^◌, ◌<◌, ◌==◌, ◌≡◌, refl, sym, ◌∙◌, arith, Bool-cases, true, inl, inr}
use native.Mathlib.Nat.{mod-one, div-one}
use besm.BitMagic.Reference.{gather, scatter, gather_full, scatter_full}
use besm.BitMagic.{complement, extract_masked, insert_masked}
use besm.BitMagic.Extractor.{masked_extractor_lem}
use besm.BitMagic.Inserter.{masked_inserter_lem}

full_mask : (w mask : ℕ) → (mask == complement w 0) ≡ true → mask ≡ 2 ^ w - 1
unfolding complement
full_mask w mask h = ground arith

-- `ExtractMasked` gathers the bits of the mask.
pub extract_masked_lem :
    (w mask value : ℕ)
    → mask < 2 ^ w
    → value < 2 ^ w
    → extract_masked w mask value ≡ gather w mask value
extract_masked_lem w mask value m v = elim (Bool-cases (mask == complement w 0)) [
  | inl full ↦
      unfold extract_masked in rw full (sym (gather_full w mask value (full_mask w mask full) v))
  | inr part ↦
      unfold extract_masked in
      rw part (
        masked_extractor_lem w mask w 0 0 0 0 value refl (omega arith) (omega arith)
        ∙ (rw (div-one mask, div-one value, mod-one value) (omega arith)))
]

-- `InsertMasked` scatters the value under the mask.
pub insert_masked_lem :
    (w mask value place : ℕ)
    → mask < 2 ^ w
    → value < 2 ^ w
    → place < 2 ^ w
    → insert_masked w mask value place ≡ scatter w mask value place
insert_masked_lem w mask value place m v p = elim (Bool-cases (mask == complement w 0)) [
  | inl full ↦
      unfold insert_masked in
      rw full (sym (scatter_full w mask value place (full_mask w mask full) v p))
  | inr part ↦
      unfold insert_masked in
      rw part (
        masked_inserter_lem w mask w 0 0 0 0 value place refl (omega arith) (omega arith) p
        ∙ (rw (div-one mask, div-one value, div-one place, mod-one value, mod-one place)
            (omega arith)))
]
