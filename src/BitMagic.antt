-- ===== src/BitMagic.antt =====
-- include/besm-666/util/bit-magic.hpp over an unsigned type of `w` bits: a value is a number
-- below `2 ^ w`, `<<`, `-` and `~` wrap, and `>>` is a division.
pub mod Fields
pub mod Reference
pub mod Extractor
pub mod Inserter
pub mod Masked
pub mod Runs
use besm.Prelude.{
  ℕ, ◌+◌, ◌-◌, ◌*◌, ◌/◌, ◌%◌, ◌^◌, bit_and, bit_or, bit_xor, ◌==◌, zero, suc, true, false,
  if◌then◌else◌,
}

-- `x << k`, `a - b` and `~a` of the unsigned type.
unfoldable pub shl : ℕ → ℕ → ℕ → ℕ
shl w x k = x * 2 ^ k % 2 ^ w

unfoldable pub sub : ℕ → ℕ → ℕ → ℕ
sub w a b = (a + 2 ^ w - b) % 2 ^ w

unfoldable pub complement : ℕ → ℕ → ℕ
complement w a = 2 ^ w - 1 - a

-- `SignExtend<Type, SignBits>`
unfoldable pub sign_extend : ℕ → ℕ → ℕ → ℕ
unfolding shl sub
sign_extend w sign_bits value =
    let mask = sub w (shl w 1 sign_bits) 1 in
    let signbit_mask = shl w 1 (sign_bits - 1) in
    let clean_uppermost_bits_value = bit_and value mask in
    sub w (bit_xor clean_uppermost_bits_value signbit_mask) signbit_mask

-- `BitMask<Type, Bits, Where>`
unfoldable pub bit_mask : ℕ → ℕ → ℕ → ℕ
unfolding shl sub
bit_mask w bits position = shl w (sub w (shl w 1 bits) 1) position

-- `ExtractBits<Type, Bits, From>`
unfoldable pub extract_bits : ℕ → ℕ → ℕ → ℕ → ℕ
unfolding bit_mask
extract_bits w bits from value = bit_and value (bit_mask w bits from) / 2 ^ from

-- `ClearBits<Type, Bits, From>`
unfoldable pub clear_bits : ℕ → ℕ → ℕ → ℕ → ℕ
unfolding bit_mask complement
clear_bits w bits from value = bit_and value (complement w (bit_mask w bits from))

-- `ChangeBits<Type, Bits, From>`
unfoldable pub change_bits : ℕ → ℕ → ℕ → ℕ → ℕ → ℕ
unfolding clear_bits extract_bits shl
change_bits w bits from value new_bits =
    bit_or (clear_bits w bits from value) (shl w (extract_bits w bits 0 new_bits) from)

-- `MaskedExtractor<Type, Mask, Pos, Series, Filled, Count>::Do`. The first number counts the
-- positions left, `Count - Pos`; the specialisation at `Pos == Count` is its zero.
unfoldable pub masked_extractor : ℕ → ℕ → ℕ → ℕ → ℕ → ℕ → ℕ → ℕ
unfolding extract_bits shl
masked_extractor w mask zero pos series filled value =
    let series_mask_offset = w - series in
    if series_mask_offset == w
    then 0
    else shl w (extract_bits w series series_mask_offset value) filled
masked_extractor w mask (suc left) pos series filled value = elim (extract_bits w 1 pos mask == 0) [
  | false ↦ masked_extractor w mask left (pos + 1) (series + 1) filled value
  | true ↦
      let series_mask_offset = pos - series in
      bit_or (shl w (extract_bits w series series_mask_offset value) filled)
        (masked_extractor w mask left (pos + 1) 0 (filled + series) value)
]

-- `ExtractMasked<Type, Mask>`
unfoldable pub extract_masked : ℕ → ℕ → ℕ → ℕ
unfolding masked_extractor complement
extract_masked w mask value =
    if mask == complement w 0 then value else masked_extractor w mask w 0 0 0 value

-- `MaskedInserter<Type, Mask, Pos, Series, Set, Count>::Do`
unfoldable pub masked_inserter : ℕ → ℕ → ℕ → ℕ → ℕ → ℕ → ℕ → ℕ → ℕ
masked_inserter w mask zero pos series placed value set_place =
    let series_mask_offset = w - series in
    if series_mask_offset == w
    then set_place
    else change_bits w series series_mask_offset set_place (extract_bits w series placed value)
masked_inserter w mask (suc left) pos series placed value set_place =
    elim (extract_bits w 1 pos mask == 0) [
      | false ↦ masked_inserter w mask left (pos + 1) (series + 1) placed value set_place
      | true ↦
          let series_mask_offset = pos - series in
          let new_set_place =
            change_bits w series series_mask_offset set_place
              (extract_bits w series placed value) in
          masked_inserter w mask left (pos + 1) 0 (placed + series) value new_set_place
    ]

-- `InsertMasked<Type, Mask>`
unfoldable pub insert_masked : ℕ → ℕ → ℕ → ℕ → ℕ
unfolding masked_inserter extract_bits change_bits complement
insert_masked w mask value set_place =
    if mask == complement w 0 then value else masked_inserter w mask w 0 0 0 value set_place
