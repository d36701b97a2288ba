-- ===== src/Memory/Area.antt =====
-- src/memory/phys-mem.cpp: `PhysMem::storeContArea` and `PhysMemLoader::loadElf`.
use besm.Prelude.{ℕ, zero, suc, ◌+◌, ◌-◌, ◌%◌, ◌^◌, min, ltb, Option, none, some, if◌then◌else◌}
use besm.Memory.Bytes.{Bytes}
use besm.Memory.Outcome.{
  Outcome, done, unaligned, invalid_address, invalid_argument, mapping_intersection, bad_alloc,
  undefined, ◌>>=◌,
}
use besm.Memory.Allocator.{Host, Pointer, null, inside}
use besm.Memory.Ram.{write_bytes}
use besm.Memory.PhysMem.{PhysMem, set_ram, store, touch_host_address}

-- `memcpy` of `n` bytes to a host address.
abbrev pub copy_to : ℕ → ℕ → Bytes → ℕ → ℕ → PhysMem → PhysMem
copy_to n device source nth place mem =
    set_ram device (write_bytes n nth place source (mem.rams device)) mem

module _ (host : Host) (address : ℕ) (source : Bytes) (size : ℕ) where
  -- The bytes of one turn, and the memory after it.
  unfoldable pub copied : ℕ → ℕ → ℕ → PhysMem → Pointer → Outcome (ℕ × PhysMem)
  copied i device host_size mem null =
      store host 1 mem ((address + i) % 2 ^ 64) (source i) >>= (λ stored. done (1, stored))
  copied i device host_size mem (inside nth place) =
      let copy_size = min (size - i) host_size in
      done (copy_size, copy_to copy_size device (λ j. source (i + j)) nth place mem)

  -- A turn of the loop.
  unfoldable pub turn : ℕ → PhysMem → Outcome (ℕ × PhysMem)
  turn i mem =
      touch_host_address host mem ((address + i) % 2 ^ 64)
      >>= (λ (area, touched). copied i area.device area.size touched area.pointer)

  abbrev pub goes_on :
      (ℕ → PhysMem → Option (Outcome PhysMem)) → Outcome (ℕ × PhysMem) → Option (Outcome PhysMem)
  goes_on rest (done (n, mem)) = rest n mem
  goes_on rest unaligned = some unaligned
  goes_on rest invalid_address = some invalid_address
  goes_on rest invalid_argument = some invalid_argument
  goes_on rest mapping_intersection = some mapping_intersection
  goes_on rest bad_alloc = some bad_alloc
  goes_on rest undefined = some undefined

  -- The loop, on fuel; `none` is the end of the fuel.
  unfoldable pub copy_loop : ℕ → ℕ → PhysMem → Option (Outcome PhysMem)
  copy_loop zero i mem = if ltb i size then none else some (done mem)
  copy_loop (suc fuel) i mem =
      let rest = λ (n : ℕ) (later : PhysMem). copy_loop fuel (i + n) later in
      if ltb i size then goes_on rest (turn i mem) else some (done mem)

  -- `storeContArea`: every turn copies a byte or more, so `size` turns are enough.
  unfoldable pub store_cont_area : PhysMem → Option (Outcome PhysMem)
  store_cont_area mem = copy_loop size 0 mem
