-- ===== src/Sim/Booted.antt =====
-- src/sim/machine.cpp: the machine starts with the segments of its executable in its memory.
use besm.Memory.Pages.{IsShort}
use besm.Prelude.{
  ℕ, ◌+◌, ◌-◌, ◌%◌, ◌^◌, ◌≤◌, ◌<◌, List, [], ◌∷◌, Option, none, some, inl, ◌≡◌, refl, sym, ap, ◌∙◌,
  subst, arith,
}
use besm.Memory.Outcome.{
  Outcome, done, unaligned, invalid_address, invalid_argument, mapping_intersection, bad_alloc,
  undefined,
}
use besm.Memory.Allocator.{Host}
use besm.Memory.Pages.{IsAnonymous}
use besm.Memory.Range.{Range, contains-intro}
use besm.Memory.Ram.{Ram}
use besm.Memory.Insertion.{IsApart}
use besm.Memory.PhysMem
use besm.Memory.PhysMem.{Entry, PhysMem}
use besm.Memory.Lookup.{IsEntry, entry-scan}
use besm.Memory.Physical
use besm.Memory.Builder.{Builder, build, empty}
use besm.Memory.Mapping.{build-IsValid, empty-IsBuilt}
use besm.Memory.Loader.{LoadableSegment, parsed, parse, load_elf}
use besm.Memory.Loads.{loaded_bytes, AreInside, Loaded, load_elf-Loaded}
use besm.Memory.Linked.{IsLinked, IsWhole}
use besm.Memory.Refined.{Holds}
use besm.Memory.Prefetcher
use besm.Memory.Prefetcher.{Memory}
use besm.Hart
use besm.Hart.{Hart}
use besm.Sim.Config.{Config}
use besm.Sim.Machine.{
  Surroundings, Booting, booted, not_loaded, map_ranges, boot_loaded, boot_parsed, boot_mapped, new,
}
use besm.Sim.Ranges.{
  IsAmong, AreRanges, AreSizes, IsPaged, AreMapped, AllMapped, map_ranges-AllMapped,
}

-- Every segment has bytes, and lies in one range.
unfoldable pub AreSegments : List LoadableSegment → List Range → Type 0
AreSegments [] ranges = Unit
AreSegments (segment ∷ segments) ranges =
    ((range : Range) × IsAmong range ranges
      × (range.left_border ≤ segment.address)
      × (segment.address + segment.size ≤ range.right_border)
      × (range.right_border < 2 ^ 64))
    × (0 < segment.size)
    × AreSegments segments ranges

-- What the constructor promises: a hart whose memory holds the segments over zeros, or no page.
unfoldable pub Started : Host → List LoadableSegment → Booting → Type 0
Started host segments (booted hart) = Holds host hart.memory (loaded_bytes segments (λ x. 0))
Started host segments (not_loaded (some bad_alloc)) = IsShort host
Started host segments _ = ⊥

segments-AreInside :
    (host : Host) (page_size : ℕ) (ranges : List Range) (before after : Builder)
    (segments : List LoadableSegment)
    → AreMapped host page_size ranges before after
    → AreSegments segments ranges
    → AreInside segments (build after)
unfolding AreSegments AreInside build PhysMem.new
segments-AreInside host page_size ranges before after [] is are = tt
segments-AreInside host page_size ranges before after (segment ∷ segments) is
      ((range, among, left, right, small), some_bytes, are) =
    let (device, at) = is.mapped range among in
    (
      (
        range,
        device,
        record {
          found =
              entry-scan segment.address after.devices (range, device) is.built.disjoint at
                (contains-intro range segment.address left (omega arith));
          fits = right;
        },
      ),
      omega arith,
      segments-AreInside host page_size ranges before after segments is are,
    )

built-IsWhole :
    (page_size : ℕ) (builder : Builder) → IsPaged page_size builder → IsWhole (build builder)
unfolding build PhysMem.new
built-IsWhole page_size builder paged = λ entry at.
    subst (λ p. (entry.0.right_border - entry.0.left_border) % p ≡ 0) (sym (paged.pages entry at))
      (paged.whole entry at)

empty-IsPaged : (page_size : ℕ) (rams : ℕ → Ram) → IsPaged page_size (empty rams)
unfolding empty IsEntry
empty-IsPaged page_size rams = record {
  pages = λ entry at. absurd at;
  whole = λ entry at. absurd at;
}

empty-IsApart :
    (rams : ℕ → Ram) (ranges : List Range) (range : Range)
    → IsAmong range ranges
    → IsApart range (empty rams).devices
unfolding empty IsEntry
empty-IsApart rams ranges range among = λ entry at. absurd at

module _ (around : Surroundings) (segments : List LoadableSegment) where
  boot_loaded-Started :
      (mem : PhysMem) (result : Option (Outcome PhysMem))
      → IsWhole mem
      → Physical.view mem ≡ (λ x. 0)
      → Loaded around.host segments mem result
      → Started around.host segments (boot_loaded around result)
  unfolding Loaded Started boot_loaded Hart.new Prefetcher.new IsLinked
  boot_loaded-Started mem none whole zeros is = absurd is
  boot_loaded-Started mem (some (done after)) whole zeros is = record {
    valid = is.valid;
    whole = λ entry at.
        rw (is.page_size entry.1)
          (whole entry (subst (λ devices. IsEntry entry devices) is.devices at));
    linked = inl refl;
    bytes_are = is.bytes ∙ ap (loaded_bytes segments) zeros;
  }
  boot_loaded-Started mem (some unaligned) whole zeros is = absurd is
  boot_loaded-Started mem (some invalid_address) whole zeros is = absurd is
  boot_loaded-Started mem (some invalid_argument) whole zeros is = absurd is
  boot_loaded-Started mem (some mapping_intersection) whole zeros is = absurd is
  boot_loaded-Started mem (some bad_alloc) whole zeros is = is
  boot_loaded-Started mem (some undefined) whole zeros is = absurd is

  mapped-Started :
      (config : Config) (before : Builder) (outcome : Outcome Builder)
      → IsAnonymous around.host
      → parse (around.file config.executable_path) ≡ parsed segments
      → AreSegments segments config.ram_ranges
      → AllMapped around.host config.ram_page_size config.ram_ranges before outcome
      → Started around.host segments (boot_mapped around config outcome)
  unfolding AllMapped boot_mapped boot_parsed
  mapped-Started config before (done builder) anonymous e are is =
      let (valid, zeros) = build-IsValid around.host builder is.built in
      rw e (
        boot_loaded-Started (build builder) (load_elf around.host segments (build builder))
          (built-IsWhole config.ram_page_size builder is.paged) zeros
          (load_elf-Loaded around.host segments (build builder) anonymous valid (
            segments-AreInside around.host config.ram_page_size config.ram_ranges before builder
              segments is are)))
  mapped-Started config before unaligned anonymous e are is = absurd is
  mapped-Started config before invalid_address anonymous e are is = absurd is
  mapped-Started config before invalid_argument anonymous e are is = absurd is
  mapped-Started config before mapping_intersection anonymous e are is = absurd is
  mapped-Started config before bad_alloc anonymous e are is = absurd is
  mapped-Started config before undefined anonymous e are is = absurd is

-- The machine of a configuration whose sizes RAM accepts, whose ranges are whole pages, in order
-- and apart, and whose executable is parsed to segments that have bytes and each lie in one range,
-- over a host whose anonymous mappings are zeros: the constructor ends with a hart over a memory
-- in order, which holds the segments over zeros, or throws `std::bad_alloc` and the host gives a
-- null pointer for some mapping.
pub new-Started :
    (around : Surroundings) (config : Config) (segments : List LoadableSegment)
    (host_bits page_bits : ℕ)
    → IsAnonymous around.host
    → AreSizes around.host host_bits page_bits config.ram_page_size config.ram_chunk_size
    → AreRanges config.ram_page_size config.ram_ranges
    → parse (around.file config.executable_path) ≡ parsed segments
    → AreSegments segments config.ram_ranges
    → Started around.host segments (new around config)
unfolding new
new-Started around config segments host_bits page_bits anonymous sizes are e inner =
    mapped-Started around segments config (empty around.rams)
      (map_ranges around.chunks config.ram_page_size config.ram_chunk_size config.ram_ranges
        (empty around.rams))
      anonymous e inner
      (map_ranges-AllMapped around.host host_bits page_bits config.ram_page_size
        config.ram_chunk_size around.chunks config.ram_ranges (empty around.rams) sizes are
        (empty-IsBuilt around.host around.rams) (empty-IsPaged config.ram_page_size around.rams)
        (empty-IsApart around.rams config.ram_ranges))
