-- ===== src/Sim/Ranges.antt =====
-- src/sim/machine.cpp: the ranges of a configuration become the devices of the memory.
use besm.Prelude.{
  ℕ, ◌+◌, ◌-◌, ◌%◌, ◌^◌, ◌≤◌, ◌<◌, true, false, List, [], ◌∷◌, inl, inr, ◌≡◌, ◌⊎◌, refl, sym, ap,
  ◌∙◌, subst, arith,
}
use besm.BitMagic.{sub}
use besm.Memory.Outcome.{
  Outcome, done, unaligned, invalid_address, invalid_argument, mapping_intersection, bad_alloc,
  undefined, ◌>>=◌,
}
use besm.Memory.Allocator.{Host, Chunk}
use besm.Memory.Range
use besm.Memory.Range.{Range, contains}
use besm.Memory.Ram.{Ram}
use besm.Memory.PhysMem.{Entry}
use besm.Memory.Lookup.{IsEntry}
use besm.Memory.Insertion.{IsApart, apart-sym}
use besm.Memory.Builder.{Builder, range_of, map_ram}
use besm.Memory.Mapping.{IsBuilt}
use besm.Memory.Mapped.{IsMapped, Mapped, map_ram-Mapped}
use besm.Memory.Created.{Refused}
use besm.Sim.Machine.{map_ranges}

unfoldable pub IsAmong : Range → List Range → Type 0
IsAmong range [] = ⊥
IsAmong range (first ∷ ranges) = (range ≡ first) ⊎ IsAmong range ranges

abbrev pub AreApart : Range → Range → Type 0
AreApart range other =
    (position : ℕ) → contains range position ≡ true → contains other position ≡ false

-- Ranges of whole pages that share no position.
unfoldable pub AreRanges : ℕ → List Range → Type 0
AreRanges page_size [] = Unit
AreRanges page_size (range ∷ ranges) =
    (range.left_border < range.right_border)
    × (range.right_border < 2 ^ 64)
    × ((range.right_border - range.left_border) % page_size ≡ 0)
    × ((other : Range) → IsAmong other ranges → AreApart range other)
    × AreRanges page_size ranges

-- Sizes that the constructor of RAM accepts.
pub record AreSizes (host : Host) (host_bits page_bits page_size chunk_size : ℕ) : Type 0 where
  pub host_page : host.page_size ≡ 2 ^ host_bits
  pub bits : host_bits < 64
  pub power : page_size ≡ 2 ^ page_bits
  pub small : page_size ≤ host.page_size
  pub page : page_size ≤ chunk_size
  pub fits : chunk_size + host.page_size < 2 ^ 64

-- The devices have pages of one size, and their ranges are whole pages.
pub record IsPaged (page_size : ℕ) (builder : Builder) : Type 0 where
  pub pages :
      (entry : Entry) → IsEntry entry builder.devices → (builder.rams entry.1).page_size ≡ page_size
  pub whole :
      (entry : Entry)
      → IsEntry entry builder.devices
      → (entry.0.right_border - entry.0.left_border) % page_size ≡ 0

-- Every range has a device, beside those that were there.
pub record AreMapped (host : Host) (page_size : ℕ) (ranges : List Range) (before after : Builder)
    : Type 0 where
  pub built : IsBuilt host after
  pub paged : IsPaged page_size after
  pub mapped :
      (range : Range) → IsAmong range ranges → (device : ℕ) × IsEntry (range, device) after.devices
  pub kept : (entry : Entry) → IsEntry entry before.devices → IsEntry entry after.devices

unfoldable pub AllMapped : Host → ℕ → List Range → Builder → Outcome Builder → Type 0
AllMapped host page_size ranges before (done after) = AreMapped host page_size ranges before after
AllMapped host page_size ranges before _ = ⊥

size_lem :
    (range : Range)
    → range.left_border < range.right_border
    → range.right_border < 2 ^ 64
    → Range.size range ≡ range.right_border - range.left_border
unfolding Range.size sub
size_lem range held small = omega arith

-- The range that `mapRAM` makes of a range.
range_of-size :
    (range : Range)
    → range.left_border < range.right_border
    → range.right_border < 2 ^ 64
    → range_of range.left_border (Range.size range) ≡ range
unfolding Range.size sub
range_of-size range held small =
    ap (λ (right : ℕ). record { left_border = range.left_border; right_border = right })
      (omega (arith, size_lem range held small))

behind :
    {host : Host} {page_size : ℕ} {range : Range} (ranges : List Range) (before mid : Builder)
    (outcome : Outcome Builder)
    → IsMapped host range page_size before mid
    → AllMapped host page_size ranges mid outcome
    → AllMapped host page_size (range ∷ ranges) before outcome
unfolding AllMapped IsAmong
behind {range} ranges before mid (done after) is rest = record {
  built = rest.built;
  paged = rest.paged;
  mapped = λ other among. elim among [
    | inl same ↦ (
      before.count,
      rest.kept (other, before.count)
          (subst (λ r. IsEntry (r, before.count) mid.devices) (sym same) is.new),
    )
    | inr later ↦ rest.mapped other later
  ];
  kept = λ entry at. rest.kept entry (is.kept entry at);
}
behind ranges before mid unaligned is rest = absurd rest
behind ranges before mid invalid_address is rest = absurd rest
behind ranges before mid invalid_argument is rest = absurd rest
behind ranges before mid mapping_intersection is rest = absurd rest
behind ranges before mid bad_alloc is rest = absurd rest
behind ranges before mid undefined is rest = absurd rest

module _ (host : Host) (host_bits page_bits page_size chunk_size : ℕ) (chunks : ℕ → Chunk)
    (sizes : AreSizes host host_bits page_bits page_size chunk_size) (range : Range)
    (held : range.left_border < range.right_border) (below : range.right_border < 2 ^ 64) where
  not-Refused : Refused (Range.size range) page_size chunk_size → ⊥
  not-Refused (inl none_at_all) = omega (arith, size_lem range held below)
  not-Refused (inr (inl no_power)) = no_power page_bits sizes.power
  not-Refused (inr (inr few)) = omega (arith, sizes.page)

  -- The pages after one range more.
  mapped-IsPaged :
      (before after : Builder)
      → (range.right_border - range.left_border) % page_size ≡ 0
      → IsBuilt host before
      → IsPaged page_size before
      → IsMapped host range page_size before after
      → IsPaged page_size after
  mapped-IsPaged before after whole built paged is = record {
    pages = λ entry at. elim (is.only entry at) [
      | inl new ↦ ap (λ (e : Entry). (after.rams e.1).page_size) new ∙ is.page
      | inr old ↦
          ap (λ (ram : Ram). ram.page_size) (is.others entry.1 (built.made entry old))
          ∙ paged.pages entry old
    ];
    whole = λ entry at. elim (is.only entry at) [
      | inl new ↦
          subst (λ (e : Entry). (e.0.right_border - e.0.left_border) % page_size ≡ 0) (sym new)
            whole
      | inr old ↦ paged.whole entry old
    ];
  }

  -- The others are apart from the device of the range.
  mapped-IsApart :
      (before after : Builder) (other : Range)
      → AreApart range other
      → IsApart other before.devices
      → IsMapped host range page_size before after
      → IsApart other after.devices
  mapped-IsApart before after other apart old_apart is = λ entry at. elim (is.only entry at) [
    | inl new ↦ subst (λ (e : Entry). AreApart other e.0) (sym new) (apart-sym range other apart)
    | inr old ↦ old_apart entry old
  ]

  -- One range, and those behind it.
  mapped_first :
      (ranges : List Range) (before : Builder) (outcome : Outcome Builder)
      → ((mid : Builder)
          → IsMapped host range page_size before mid
          → AllMapped host page_size ranges mid (map_ranges chunks page_size chunk_size ranges mid))
      → Mapped host range (Range.size range) page_size chunk_size before outcome
      → AllMapped host page_size
          (range ∷ ranges)
          before
          (outcome >>= (λ mapped. map_ranges chunks page_size chunk_size ranges mapped))
  unfolding Mapped
  mapped_first ranges before (done mid) rest is =
      behind ranges before mid (map_ranges chunks page_size chunk_size ranges mid) is (rest mid is)
  mapped_first ranges before unaligned rest is = absurd is
  mapped_first ranges before invalid_address rest is = absurd is
  mapped_first ranges before invalid_argument rest is = absurd (not-Refused is)
  mapped_first ranges before mapping_intersection rest is = absurd is
  mapped_first ranges before bad_alloc rest is = absurd is
  mapped_first ranges before undefined rest is = absurd is

pub map_ranges-AllMapped :
    (host : Host) (host_bits page_bits page_size chunk_size : ℕ) (chunks : ℕ → Chunk)
    (ranges : List Range) (builder : Builder)
    → AreSizes host host_bits page_bits page_size chunk_size
    → AreRanges page_size ranges
    → IsBuilt host builder
    → IsPaged page_size builder
    → ((range : Range) → IsAmong range ranges → IsApart range builder.devices)
    → AllMapped host page_size ranges builder
        (map_ranges chunks page_size chunk_size ranges builder)
unfolding map_ranges AreRanges IsAmong AllMapped
map_ranges-AllMapped host host_bits page_bits page_size chunk_size chunks [] builder sizes are built
      paged apart =
    record {
      built = built;
      paged = paged;
      mapped = λ range among. absurd among;
      kept = λ entry at. at;
    }
map_ranges-AllMapped host host_bits page_bits page_size chunk_size chunks (range ∷ ranges) builder
      sizes (held, below, whole, others, are) built paged apart =
    let made = range_of-size range held below in
    let one : Mapped host range (Range.size range) page_size chunk_size builder
        (map_ram range.left_border (Range.size range) page_size chunk_size chunks builder) =
      subst
        (λ r.
          Mapped host r (Range.size range) page_size chunk_size builder
            (map_ram range.left_border (Range.size range) page_size chunk_size chunks builder))
        made
        (map_ram-Mapped host host_bits range.left_border (Range.size range) page_size chunk_size
          chunks builder built (omega (arith, size_lem range held below))
          (omega (arith, size_lem range held below))
          (subst (λ r. IsApart r builder.devices) (sym made) (apart range (inl refl)))
          sizes.host_page sizes.bits sizes.small sizes.fits) in
    mapped_first host host_bits page_bits page_size chunk_size chunks sizes range held below ranges
      builder (map_ram range.left_border (Range.size range) page_size chunk_size chunks builder)
      (λ mid is.
        map_ranges-AllMapped host host_bits page_bits page_size chunk_size chunks ranges mid sizes
          are is.built
          (mapped-IsPaged host host_bits page_bits page_size chunk_size chunks sizes range held
            below builder mid whole built paged is)
          (λ other among.
            mapped-IsApart host host_bits page_bits page_size chunk_size chunks sizes range held
              below builder mid other (others other among) (apart other (inr among)) is))
      one
