-- ===== src/Memory/PhysMem.antt =====
-- include/besm-666/memory/phys-mem.hpp and src/memory/phys-mem.cpp: the devices on the bus.
use besm.Prelude.{ℕ, ◌-◌, ◌==◌, List, [], ◌∷◌, Option, none, some, if◌then◌else◌}
use besm.Memory.Outcome.{Outcome, done, invalid_address, bad_alloc, undefined, ◌>>=◌}
use besm.Memory.Allocator.{Host, Pointer}
use besm.Memory.Range.{Range, contains}
use besm.Memory.Ram
use besm.Memory.Ram.{Ram}

-- A range and the device behind it. The devices are shared: an entry names its device.
abbrev pub Entry : Type 0
Entry = Range × ℕ

-- `devices` in the map's order. `rams` are the devices by name, and RAM is the only class of them.
-- `lastAccessedRange_` and `lastAccessedDevice_` are what `findDevice` found last.
pub record PhysMem : Type 0 where
  pub devices : List Entry
  pub last_range : Range
  pub last_device : Option ℕ
  pub rams : ℕ → Ram

unfoldable pub new : List Entry → (ℕ → Ram) → PhysMem
new devices rams = record {
  devices = devices;
  last_range = record { left_border = 0; right_border = 0 };
  last_device = none;
  rams = rams;
}

-- The loop of `findDevice`.
unfoldable pub scan : ℕ → List Entry → Option Entry
scan address [] = none
scan address ((range, device) ∷ devices) =
    let rest = scan address devices in if contains range address then some (range, device) else rest

abbrev pub cached : Entry → PhysMem → PhysMem
cached (range, device) mem = record mem { last_range = range; last_device = some device }

abbrev pub remember : PhysMem → Option Entry → Outcome ((Range × Option ℕ) × PhysMem)
remember mem none = invalid_address
remember mem (some (range, device)) = done ((range, some device), cached (range, device) mem)

-- `findDevice`
unfoldable pub find_device : PhysMem → ℕ → Outcome ((Range × Option ℕ) × PhysMem)
find_device mem address =
    if contains mem.last_range address
    then done ((mem.last_range, mem.last_device), mem)
    else remember mem (scan address mem.devices)

unfoldable pub set_ram : ℕ → Ram → PhysMem → PhysMem
set_ram device ram mem = record mem {
  rams = λ other. if other == device then ram else mem.rams other;
}

abbrev pub keep {ℓ} : {A : Type ℓ} → PhysMem → Outcome A → Outcome (A × PhysMem)
keep mem outcome = outcome >>= (λ value. done (value, mem))

abbrev pub change : ℕ → PhysMem → Outcome Ram → Outcome PhysMem
change device mem outcome = outcome >>= (λ ram. done (set_ram device ram mem))

-- `device->load<...>(address - range.leftBorder())`; a null `device` is not followed.
abbrev pub load_from : ℕ → ℕ → (Range × Option ℕ) × PhysMem → Outcome (ℕ × PhysMem)
load_from n address ((range, none), mem) = undefined
load_from n address ((range, some device), mem) =
    keep mem (Ram.load n (mem.rams device) (address - range.left_border))

abbrev pub store_into : Host → ℕ → ℕ → ℕ → (Range × Option ℕ) × PhysMem → Outcome PhysMem
store_into host n address value ((range, none), mem) = undefined
store_into host n address value ((range, some device), mem) =
    change device mem (Ram.store host n (mem.rams device) (address - range.left_border) value)

-- `loadByte`, `loadHWord`, `loadWord` and `loadDWord`, by the number of bytes.
unfoldable pub load : ℕ → PhysMem → ℕ → Outcome (ℕ × PhysMem)
load n mem address = find_device mem address >>= load_from n address

-- `storeByte`, `storeHWord`, `storeWord` and `storeDWord`.
unfoldable pub store : Host → ℕ → PhysMem → ℕ → ℕ → Outcome PhysMem
store host n mem address value = find_device mem address >>= store_into host n address value

-- A host address: the device whose chunks it points into, the pointer, and the bytes behind it.
pub record Area : Type 0 where
  pub device : ℕ
  pub pointer : Pointer
  pub size : ℕ

abbrev pub area : ℕ → Pointer × ℕ → Area
area device (pointer, size) = record { device = device; pointer = pointer; size = size }

abbrev pub area_of : ℕ → (Range × Option ℕ) × PhysMem → Outcome (Area × PhysMem)
area_of address ((range, none), mem) = undefined
area_of address ((range, some device), mem) =
    done (area device (Ram.get_host_address (mem.rams device) (address - range.left_border)), mem)

abbrev pub touched_area : ℕ → PhysMem → Option ((Pointer × ℕ) × Ram) → Outcome (Area × PhysMem)
touched_area device mem none = bad_alloc
touched_area device mem (some (place, ram)) = done (area device place, set_ram device ram mem)

abbrev pub touch_area : Host → ℕ → (Range × Option ℕ) × PhysMem → Outcome (Area × PhysMem)
touch_area host address ((range, none), mem) = undefined
touch_area host address ((range, some device), mem) =
    touched_area device mem
      (Ram.touch_host_address host (mem.rams device) (address - range.left_border))

-- `getHostAddress`
unfoldable pub get_host_address : PhysMem → ℕ → Outcome (Area × PhysMem)
get_host_address mem address = find_device mem address >>= area_of address

-- `touchHostAddress`
unfoldable pub touch_host_address : Host → PhysMem → ℕ → Outcome (Area × PhysMem)
touch_host_address host mem address = find_device mem address >>= touch_area host address
