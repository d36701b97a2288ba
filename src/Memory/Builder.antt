-- ===== src/Memory/Builder.antt =====
-- src/memory/phys-mem.cpp: `PhysMemBuilder`.
use besm.Prelude.{ℕ, suc, ◌+◌, ◌%◌, ◌^◌, ◌==◌, ltb, ◌||◌, Bool, false, List, [], ◌∷◌, if◌then◌else◌}
use besm.Memory.Outcome.{Outcome, done, mapping_intersection, ◌>>=◌}
use besm.Memory.Allocator.{Chunk}
use besm.Memory.Range.{Range, contains_range}
use besm.Memory.Ram
use besm.Memory.Ram.{Ram}
use besm.Memory.PhysMem
use besm.Memory.PhysMem.{Entry, PhysMem}

-- `devices`, and the devices that were made so far.
pub record Builder : Type 0 where
  pub devices : List Entry
  pub rams : ℕ → Ram
  pub count : ℕ

-- `devices_.insert`: the map is ordered by the left borders and keeps the entry that it has.
unfoldable pub insert : Entry → List Entry → List Entry
insert entry [] = entry ∷ []
insert entry (first ∷ devices) =
    let rest = insert entry devices in
    if ltb entry.0.left_border first.0.left_border
    then entry ∷ first ∷ devices
    else if ltb first.0.left_border entry.0.left_border
    then first ∷ rest
    else first ∷ devices

-- The loop of `mapDevice`.
unfoldable pub contains_any : Range → List Entry → Bool
contains_any range [] = false
contains_any range (first ∷ devices) = contains_range range first.0 || contains_any range devices

abbrev pub range_of : ℕ → ℕ → Range
range_of address size = record { left_border = address; right_border = (address + size) % 2 ^ 64 }

-- `mapDevice`
unfoldable pub map_device : ℕ → ℕ → Builder → Outcome Builder
map_device device address builder =
    let range = range_of address (Ram.get_size (builder.rams device)) in
    if contains_any range builder.devices
    then mapping_intersection
    else done (record builder { devices = insert (range, device) builder.devices })

-- `std::make_shared<RAM>`
abbrev pub add_ram : Ram → Builder → Builder
add_ram ram builder = record builder {
  rams = λ device. if device == builder.count then ram else builder.rams device;
  count = suc builder.count;
}

-- `mapRAM`
unfoldable pub map_ram : ℕ → ℕ → ℕ → ℕ → (ℕ → Chunk) → Builder → Outcome Builder
map_ram address ram_size page_size chunk_size chunks builder =
    Ram.new ram_size page_size chunk_size chunks
    >>= (λ ram. map_device builder.count address (add_ram ram builder))

-- `PhysMemBuilder()`, over any devices that were never made.
unfoldable pub empty : (ℕ → Ram) → Builder
empty rams = record { devices = []; rams = rams; count = 0 }

-- `build`
unfoldable pub build : Builder → PhysMem
build builder = PhysMem.new builder.devices builder.rams

-- `getDevices`
unfoldable pub get_devices : PhysMem → List Entry
get_devices mem = mem.devices
