-- ===== src/Tests/Memory.antt =====
-- The theorems on src/memory at a memory of one small device.
use besm.Prelude.{
  ℕ, ◌+◌, ◌-◌, ◌%◌, ◌≤◌, ◌<◌, List, [], ◌∷◌, Option, none, some, inl, inr, ◌≡◌, refl, sym, ap,
  arith,
}
use besm.Memory.Bytes.{Bytes, put, covered, byte_of, bytes_of, read_le}
use besm.Memory.Sizes.{nearest_2pow_divident, is_2pow, is_2pow_lem}
use besm.Memory.Outcome.{Outcome, done}
use besm.Memory.Allocator
use besm.Memory.Allocator.{Host, Chunk, alloc_page}
use besm.Memory.Pages.{IsAnonymous, Allocated}
use besm.Memory.Given.{alloc_page-Allocated}
use besm.Memory.Ram
use besm.Memory.Ram.{Ram}
use besm.Memory.View
use besm.Memory.View.{byte_in}
use besm.Memory.Created.{Created, passed-IsValid}
use besm.Memory.Stored.{Stored, store_lem}
use besm.Memory.LoadStore.{store-load}
use besm.Memory.Range.{Range, contains}
use besm.Memory.PhysMem
use besm.Memory.PhysMem.{Entry, PhysMem, scan, remember, find_device}
use besm.Memory.Lookup.{IsEntry, find_device_lem}
use besm.Memory.Physical
use besm.Memory.Physical.{IsInside, IsAccess}
use besm.Memory.Writes.{Written}
use besm.Memory.Area.{store_cont_area}
use besm.Memory.Copies.{store_cont_area-Copied}
use besm.Memory.Builder.{Builder, insert, add_ram, range_of, map_ram, empty, build}
use besm.Memory.Insertion.{IsApart}
use besm.Memory.Mapping.{IsBuilt, empty-IsBuilt, build-IsValid}
use besm.Memory.Mapped.{Mapped, added-IsBuilt, map_ram-Mapped}
use besm.Memory.Linked.{IsLinked, IsWhole}
use besm.Memory.Fetched.{Fetched, load_word-Fetched}
use besm.Memory.Refined.{Holds}
use besm.Memory.Prefetcher
use besm.Memory.Prefetcher.{Memory, load_word, load, store, is_saved, save_or_load}
use besm.Memory.Mmu
use besm.Memory.Accesses.{
  Access, perform, loads, stores, fetches, run, answers_of, AreAllowed, Answered, run-Answered,
}

abbrev pub zeros : Bytes
zeros x = 0

abbrev pub small_host : Host
small_host = record { page_size = 16; mmap = λ nth size. some zeros }

byte_of_some : ℕ → Option Bytes → ℕ
byte_of_some x none = 0
byte_of_some x (some bytes) = bytes x

pub small_host-IsAnonymous : IsAnonymous small_host
unfolding IsAnonymous byte_of_some
small_host-IsAnonymous nth size bytes e x h = sym (ap (byte_of_some x) e)

abbrev pub no_chunks : ℕ → Chunk
no_chunks nth = record { bytes = zeros; rower = 0; size = 0; page_size = 0 }

abbrev pub small_ram : Ram
small_ram = record {
  ram_size = 32;
  page_size = 8;
  allocator = Allocator.new 8 16 no_chunks;
  pagemap = λ id. none;
}

small_ram-IsValid : View.IsValid small_host small_ram
small_ram-IsValid =
    passed-IsValid small_host 4 32 8 16 no_chunks refl (omega arith) (omega arith) (omega arith) 3
      refl

small_ram-zeros : View.view small_ram ≡ zeros
unfolding View.view byte_in
small_ram-zeros = refl

abbrev pub no_rams : ℕ → Ram
no_rams device = small_ram

abbrev pub small_range : Range
small_range = range_of 32 32

-- The builder with one device at 32.
abbrev pub small_builder : Builder
small_builder = record (add_ram small_ram (empty no_rams)) {
  devices = insert (small_range, 0) (empty no_rams).devices;
}

none-IsApart : IsApart small_range (empty no_rams).devices
unfolding empty IsEntry
none-IsApart = λ entry at. absurd at

small_builder-IsBuilt : IsBuilt small_host small_builder
unfolding empty
small_builder-IsBuilt =
    added-IsBuilt small_host 4 32 32 8 16 no_chunks (empty no_rams)
      (empty-IsBuilt small_host no_rams) (omega arith) (omega arith) none-IsApart small_ram
      small_ram-IsValid small_ram-zeros

abbrev pub small_phys : PhysMem
small_phys = build small_builder

pub small_phys-IsValid : Physical.IsValid small_host small_phys
small_phys-IsValid = (build-IsValid small_host small_builder small_builder-IsBuilt).0

pub small_phys-IsAccess :
    (n address : ℕ)
    → scan address small_phys.devices ≡ some (small_range, 0)
    → 0 < n
    → address + n ≤ 64
    → 8 % n ≡ 0
    → (address - 32) % n ≡ 0
    → IsAccess n address small_phys small_range 0
unfolding build PhysMem.new empty
small_phys-IsAccess n address found bytes fits page aligned = record {
  inside = record { found = found; fits = fits };
  bytes = bytes;
  page = page;
  aligned = aligned;
}

found_40 : scan 40 small_phys.devices ≡ some (small_range, 0)
unfolding build PhysMem.new empty scan insert contains
found_40 = refl

small_phys-IsWhole : IsWhole small_phys
unfolding build PhysMem.new empty insert IsEntry
small_phys-IsWhole entry (inl same) = rw same refl
small_phys-IsWhole entry (inr none_else) = absurd none_else

abbrev pub small_memory : Memory
small_memory = Prefetcher.new small_phys

pub small_memory-Holds : Holds small_host small_memory zeros
unfolding Prefetcher.new IsLinked
small_memory-Holds = record {
  valid = small_phys-IsValid;
  whole = small_phys-IsWhole;
  linked = inl refl;
  bytes_are = (build-IsValid small_host small_builder small_builder-IsBuilt).1;
}

alloc_page-Allocated_example :
    Allocated small_host small_ram.allocator (alloc_page small_host small_ram.allocator)
alloc_page-Allocated_example =
    alloc_page-Allocated small_host small_ram.allocator small_host-IsAnonymous
      small_ram-IsValid.allocator

store_lem_example :
    Stored small_host 4 12 (bytes_of 7) small_ram (Ram.store small_host 4 small_ram 12 7)
store_lem_example =
    store_lem small_host 4 12 7 small_ram small_host-IsAnonymous small_ram-IsValid (omega arith)
      refl refl

-- The memory after a store.
abbrev stored_in : Outcome Ram → Ram
stored_in (done ram) = ram
stored_in _ = small_ram

stored_is :
    Ram.store small_host 4 small_ram 12 7 ≡ done (stored_in (Ram.store small_host 4 small_ram 12 7))
unfolding Ram.store Ram.write_through Ram.touch_host_address Ram.touch_page_address Ram.found_or_new
    Ram.insert_page alloc_page Allocator.new Allocator.grow Allocator.grow_with Allocator.new_chunk
    Allocator.mapped_chunk Allocator.alloc_back Allocator.chunk_alloc_page Allocator.emplace_back
    Allocator.set_chunk besm.Memory.Sizes.nearest_2pow_divident
stored_is = refl

store-load_example : Ram.load 4 (stored_in (Ram.store small_host 4 small_ram 12 7)) 12 ≡ done 7
store-load_example =
    store-load small_host 4 12 7 small_ram (stored_in (Ram.store small_host 4 small_ram 12 7))
      small_host-IsAnonymous small_ram-IsValid (omega arith) refl refl stored_is (omega arith)

find_device_lem_example :
    find_device small_phys 40 ≡ remember small_phys (scan 40 small_phys.devices)
find_device_lem_example = find_device_lem small_phys 40 small_phys-IsValid.coherent

store_cont_area-Copied_example :
    (outcome : Outcome PhysMem) × (store_cont_area small_host 40 (λ i. i) 24 small_phys
      ≡ some outcome)
    × Written small_host 24 40 (λ i. i) small_phys outcome
store_cont_area-Copied_example =
    store_cont_area-Copied small_host 40 (λ i. i) 24 small_phys small_range 0 small_host-IsAnonymous
      small_phys-IsValid (record { found = found_40; fits = omega arith }) (omega arith)

map_ram-Mapped_example :
    Mapped small_host small_range 32 8 16
      (empty no_rams)
      (map_ram 32 32 8 16 no_chunks (empty no_rams))
map_ram-Mapped_example =
    map_ram-Mapped small_host 4 32 32 8 16 no_chunks (empty no_rams)
      (empty-IsBuilt small_host no_rams) (omega arith) (omega arith) none-IsApart refl (omega arith)
      (omega arith) (omega arith)

pub word-IsAccess : IsAccess 4 40 small_phys small_range 0
word-IsAccess = small_phys-IsAccess 4 40 found_40 (omega arith) (omega arith) refl refl

load_word-Fetched_example : Fetched small_host 40 small_phys (load_word small_memory 40)
unfolding Prefetcher.new
load_word-Fetched_example =
    load_word-Fetched small_host small_memory 40 small_range 0 small_memory-Holds.valid
      small_memory-Holds.whole small_memory-Holds.linked word-IsAccess

abbrev small_accesses : List Access
small_accesses = stores 4 40 0x13 ∷ loads 4 40 ∷ fetches 40 ∷ []

small_accesses-AreAllowed : AreAllowed small_phys small_accesses
unfolding AreAllowed
small_accesses-AreAllowed = (
  (small_range, 0, word-IsAccess),
  ((small_range, 0, word-IsAccess), ((small_range, 0, word-IsAccess), tt)),
)

run-Answered_example :
    Answered small_host
      (answers_of small_accesses zeros)
      (run small_host small_accesses small_memory)
unfolding Prefetcher.new
run-Answered_example =
    run-Answered small_host small_accesses small_memory zeros small_host-IsAnonymous
      small_memory-Holds small_accesses-AreAllowed

-- The same accesses, run.
small_run : run small_host small_accesses small_memory ≡ done (0 ∷ 0x13 ∷ 0x13 ∷ [])
unfolding run perform store load load_word Mmu.store Mmu.load Mmu.get_host_address
    Mmu.translate_address PhysMem.store PhysMem.load PhysMem.get_host_address find_device scan
    contains build PhysMem.new empty insert Prefetcher.new PhysMem.set_ram Ram.store Ram.load
    Ram.get_host_address Ram.get_page_address Ram.write_through Ram.write_bytes
    Ram.touch_host_address Ram.touch_page_address Ram.found_or_new Ram.insert_page alloc_page
    Allocator.take_or_grow Allocator.new Allocator.grow Allocator.grow_with Allocator.new_chunk
    Allocator.mapped_chunk Allocator.alloc_back Allocator.chunk_alloc_page Allocator.emplace_back
    Allocator.set_chunk nearest_2pow_divident besm.BitMagic.complement besm.BitMagic.sub read_le put
    covered byte_of is_saved save_or_load
small_run = refl
