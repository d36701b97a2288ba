-- ===== src/Tests/Machine.antt =====
-- The theorems on src/sim/machine.cpp and on the hart over the memory, at one small machine.
use besm.Prelude.{ℕ, ◌+◌, ◌*◌, ◌%◌, ◌^◌, true, [], ◌∷◌, inl, ◌≡◌, refl, arith}
use besm.Gprf
use besm.Instruction.{Instruction, InstructionOp, only_operation}
use besm.Memory.Bytes.{read_le, write_le}
use besm.Memory.Physical.{IsAccess}
use besm.Memory.Loader.{Elf, LoadableSegment, parsed, parse, get_loadable_segments}
use besm.Memory.Refined.{Holds, IsLeft}
use besm.Memory.Prefetcher
use besm.Memory.Prefetcher.{Memory}
use besm.Hart
use besm.Hart.{Hart, rs2, write_back}
use besm.Hart.Transfer.{load_by, store_by}
use besm.Sim.Config.{Config}
use besm.Sim.Machine
use besm.Sim.Machine.{Surroundings}
use besm.Sim.Ranges.{AreRanges, IsAmong}
use besm.Sim.Booted.{AreSegments, Started, new-Started}
use besm.Sim.Transfers.{machine, target, StoredBy, load_by-Holds, store_by-Holds}
use besm.Tests.Memory.{
  zeros, small_host, small_host-IsAnonymous, no_chunks, no_rams, small_range, small_memory,
  small_memory-Holds, word-IsAccess,
}
use besm.Tests.Csr.{enc}

-- A file of one segment of four bytes at 40.
abbrev small_segment : LoadableSegment
small_segment = record { address = 40; source = λ i. i + 1; size = 4 }

abbrev small_elf : Elf
small_elf = record {
  loads = true;
  class = 2;
  encoding = 1;
  machine = 243;
  segments = record { type = 1; virtual_address = 40; source = λ i. i + 1; file_size = 4 } ∷ [];
}

-- A machine whose one file is that, with one range.
abbrev small_config : Config
small_config = record {
  executable_path = 97 ∷ [];
  ram_ranges = small_range ∷ [];
  ram_page_size = 8;
  ram_chunk_size = 16;
}

abbrev loading : ℕ → ℕ → Instruction
loading block place = record (only_operation InstructionOp.lw) {
  immidiate = 40;
  rs1 = 0;
  rs2 = 5;
  rd = 6;
}

abbrev small_around : Surroundings
small_around = record {
  host = small_host;
  file = λ path. small_elf;
  chunks = no_chunks;
  rams = no_rams;
  encoding = enc;
  cells = λ cell. 7;
  words = λ name. 0;
  instrs = loading;
}

small_config-AreRanges : AreRanges 8 small_config.ram_ranges
unfolding AreRanges IsAmong
small_config-AreRanges = (omega arith, omega arith, refl, λ other among. absurd among, tt)

small_segment-AreSegments : AreSegments (small_segment ∷ []) small_config.ram_ranges
unfolding AreSegments IsAmong
small_segment-AreSegments =
    ((small_range, inl refl, omega arith, omega arith, omega arith), omega arith, tt)

small_elf-parse :
    parse (small_around.file small_config.executable_path) ≡ parsed (small_segment ∷ [])
unfolding parse get_loadable_segments
small_elf-parse = refl

new-Started_example :
    Started small_host (small_segment ∷ []) (Machine.new small_around small_config)
new-Started_example =
    new-Started small_around small_config (small_segment ∷ []) 4 3 small_host-IsAnonymous
      (record {
        host_page = refl;
        bits = omega arith;
        power = refl;
        small = omega arith;
        page = omega arith;
        fits = omega arith;
      })
      small_config-AreRanges small_elf-parse small_segment-AreSegments

abbrev pub no_shift : ℕ → ℕ → ℕ
no_shift value amount = 0

abbrev small_hart : Hart Memory
small_hart = Hart.new enc small_around.cells small_around.words loading small_memory

small_hart-IsAccess :
    IsAccess 4
      (target small_host no_shift no_shift no_shift small_hart)
      small_hart.memory.phys
      small_range
      0
unfolding target Hart.new Prefetcher.new Gprf.read besm.BitMagic.sign_extend
small_hart-IsAccess = word-IsAccess

small_hart-Holds : Holds small_host small_hart.memory zeros
unfolding Hart.new
small_hart-Holds = small_memory-Holds

load_by-Holds_example :
    (after : Memory) × (load_by
        (machine small_host no_shift no_shift no_shift)
        4
        (λ value. value)
        small_hart
      ≡ write_back
          (read_le 4 (target small_host no_shift no_shift no_shift small_hart) zeros)
          (record small_hart { memory = after }))
    × IsLeft small_host small_hart.memory after zeros
load_by-Holds_example =
    load_by-Holds small_host no_shift no_shift no_shift 4 small_hart zeros small_range 0
      small_hart-Holds small_hart-IsAccess (λ value. value)

store_by-Holds_example :
    StoredBy small_host small_hart
      (write_le 4
        (target small_host no_shift no_shift no_shift small_hart)
        (rs2 small_hart % 2 ^ (8 * 4))
        zeros)
      (store_by (machine small_host no_shift no_shift no_shift) 4 small_hart)
store_by-Holds_example =
    store_by-Holds small_host no_shift no_shift no_shift 4 small_hart zeros small_range 0
      small_hart-Holds small_hart-IsAccess small_host-IsAnonymous
