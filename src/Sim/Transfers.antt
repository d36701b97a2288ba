-- ===== src/Sim/Transfers.antt =====
-- src/sim/hart.cpp over src/memory: the handlers of the loads and the stores, on the memory.
use besm.Memory.Pages.{IsShort}
use besm.Prelude.{ℕ, ◌*◌, ◌%◌, ◌^◌, none, some, ◌≡◌, refl, ap}
use besm.Memory.Bytes.{Bytes, read_le, write_le}
use besm.Memory.Outcome.{
  Outcome, done, unaligned, invalid_address, invalid_argument, mapping_intersection, bad_alloc,
  undefined, result,
}
use besm.Memory.Allocator.{Host}
use besm.Memory.Pages.{IsAnonymous}
use besm.Memory.Range.{Range}
use besm.Memory.Physical.{IsAccess}
use besm.Memory.Prefetcher.{Memory, store, platform}
use besm.Memory.Refined.{Holds, IsLeft, Kept, load-Holds, store-Kept}
use besm.Hart.{Hart, Step, Platform, next, raised, rs2, write_back, next_pc}
use besm.Hart.Transfer.{address, load_by, store_by}

-- What a store promises: the next instruction, and the bytes that the memory holds then, or no page
-- for them.
unfoldable pub StoredBy : Host → Hart Memory → Bytes → Step Memory → Type 0
StoredBy host hart bytes (next after) =
    (after ≡ next_pc (record hart { memory = after.memory }))
    × IsLeft host hart.memory after.memory bytes
StoredBy host hart bytes raised = IsShort host
StoredBy host hart bytes _ = ⊥

-- A load that the platform answers.
load_by-some :
    {M : Type 0} (on : Platform M) (n : ℕ) (extend : ℕ → ℕ) (hart : Hart M) (value : ℕ) (memory : M)
    → on.load n (address on hart) hart.memory ≡ some (value, memory)
    → load_by on n extend hart ≡ write_back (extend value) (record hart { memory = memory })
unfolding load_by
load_by-some on n extend hart value memory e = rw (e, load_by) refl

module _ (host : Host) (shift_left shift_right shift_signed : ℕ → ℕ → ℕ) where
  unfoldable pub machine : Platform Memory
  machine = platform host shift_left shift_right shift_signed

  -- The address of a load or a store.
  unfoldable pub target : Hart Memory → ℕ
  target hart = address machine hart

module _ (host : Host) (shift_left shift_right shift_signed : ℕ → ℕ → ℕ) (n : ℕ)
    (hart : Hart Memory) (bytes : Bytes) (range : Range) (device : ℕ)
    (holds : Holds host hart.memory bytes)
    (access : IsAccess n
      (target host shift_left shift_right shift_signed hart)
      hart.memory.phys
      range
      device) where
  -- The load handlers over the memory system, for an aligned address inside a device and a memory
  -- in order: the bytes that the memory holds at the address are widened and written back, and the
  -- memory holds the same bytes in the same layout.
  pub load_by-Holds :
      (extend : ℕ → ℕ)
      → (after : Memory) × (load_by (machine host shift_left shift_right shift_signed) n extend hart
          ≡ write_back
              (extend (read_le n (target host shift_left shift_right shift_signed hart) bytes))
              (record hart { memory = after }))
        × IsLeft host hart.memory after bytes
  unfolding platform machine target
  load_by-Holds extend =
      let (after, e, is) = load-Holds holds access in
      (
        after,
        load_by-some (machine host shift_left shift_right shift_signed) n extend hart
            (read_le n (target host shift_left shift_right shift_signed hart) bytes) after
            (ap (λ (o : Outcome (ℕ × Memory)). result o) e),
        is,
      )

  stored_by :
      (outcome : Outcome Memory)
      → Kept host hart.memory
          (write_le n
            (target host shift_left shift_right shift_signed hart)
            (rs2 hart % 2 ^ (8 * n))
            bytes)
          outcome
      → StoredBy host hart
          (write_le n
            (target host shift_left shift_right shift_signed hart)
            (rs2 hart % 2 ^ (8 * n))
            bytes)
          (elim (result outcome) [
            | none ↦ raised
            | some memory ↦ next (next_pc (record hart { memory = memory }))
          ])
  unfolding Kept StoredBy next_pc
  stored_by (done after) is = (refl, is)
  stored_by unaligned is = absurd is
  stored_by invalid_address is = absurd is
  stored_by invalid_argument is = absurd is
  stored_by mapping_intersection is = absurd is
  stored_by bad_alloc is = is
  stored_by undefined is = absurd is

  -- The store handlers over the memory system, for an aligned address inside a device and a memory
  -- in order, over a host whose anonymous mappings are zeros: the handler goes on to the
  -- next instruction with nothing but the program counter and the memory changed, which holds the
  -- low bytes of rs2 at the address over the bytes it held in the same layout, or it throws over a
  -- host that gives a null pointer for some mapping.
  pub store_by-Holds :
      IsAnonymous host
      → StoredBy host hart
          (write_le n
            (target host shift_left shift_right shift_signed hart)
            (rs2 hart % 2 ^ (8 * n))
            bytes)
          (store_by (machine host shift_left shift_right shift_signed) n hart)
  unfolding store_by platform machine target
  store_by-Holds anonymous =
      stored_by
        (store host n hart.memory (target host shift_left shift_right shift_signed hart)
          (rs2 hart % 2 ^ (8 * n)))
        (store-Kept host n (target host shift_left shift_right shift_signed hart)
          (rs2 hart % 2 ^ (8 * n)) hart.memory bytes range device anonymous holds access)
