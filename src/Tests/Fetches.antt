-- ===== src/Tests/Fetches.antt =====
-- The theorem on `Hart::assembleBB` over the memory, at one small memory.
use besm.Prelude.{ℕ, ◌+◌, ◌*◌, ◌%◌, ◌^◌, ◌<◌, some, ◌≡◌, refl, sym, subst, arith}
use besm.Instruction.{InstructionOp, only_operation}
use besm.Block.{Block}
use besm.Block.Assembly.{IsFinished, assembled, assemble}
use besm.Hart.{load_instr}
use besm.Memory.PhysMem
use besm.Memory.PhysMem.{scan}
use besm.Memory.Builder.{build, empty, insert}
use besm.Memory.Range.{contains}
use besm.Memory.Physical.{IsInside, IsAccess, inside-scan}
use besm.Memory.Prefetcher
use besm.Memory.Prefetcher.{Memory}
use besm.Memory.Refined.{IsLeft}
use besm.Sim.Transfers.{machine}
use besm.Sim.Fetches.{load_bytes, IsWord, assemble-Holds}
use besm.Tests.Memory.{
  zeros, small_host, small_phys, small_phys-IsValid, small_phys-IsAccess, small_range, small_memory,
  small_memory-Holds,
}
use besm.Tests.Machine.{no_shift}

-- The first word of the device.
found_32 : scan 32 small_phys.devices ≡ some (small_range, 0)
unfolding build PhysMem.new empty scan insert contains
found_32 = refl

device-IsInside : IsInside 32 32 small_phys small_range 0
device-IsInside = record { found = found_32; fits = omega arith }

small_memory-IsWord : (i : ℕ) → i < 7 → IsWord small_memory ((32 + 4 * i) % 2 ^ 64)
unfolding IsWord Prefetcher.new
small_memory-IsWord i below = (
  small_range,
  0,
  subst (λ address. IsAccess 4 address small_phys small_range 0) (sym (low i below))
      (small_phys-IsAccess 4 (32 + 4 * i)
        (inside-scan small_phys-IsValid device-IsInside (4 * i) (omega arith)) (omega arith)
        (omega arith) refl (omega arith)),
)
  where
    low : (i : ℕ) → i < 7 → (32 + 4 * i) % 2 ^ 64 ≡ 32 + 4 * i
    low i h = omega arith

-- A block whose cells are not written yet.
abbrev blank : Block
blank = record { pc = 1; instrs = λ place. only_operation InstructionOp.pause }

assemble-Holds_example :
    (block : Block) × (after : Memory) × (assemble
        (load_instr (machine small_host no_shift no_shift no_shift))
        blank
        32
        small_memory
      ≡ assembled block after)
    × IsLeft small_host small_memory after zeros
    × IsFinished (load_bytes zeros) 32 block
assemble-Holds_example =
    assemble-Holds small_host no_shift no_shift no_shift small_memory zeros blank 32
      small_memory-Holds small_memory-IsWord (omega arith)
