-- ===== src/Sim/Machine.antt =====
-- include/besm-666/sim/machine.hpp and src/sim/machine.cpp: the machine is built from its
-- configuration.
use besm.Prelude.{ℕ, List, [], ◌∷◌, Option, some}
use besm.Instruction.{Instruction}
use besm.Csr.Registers.{Encoding, RegisterName}
use besm.Memory.Outcome.{Outcome, done, ◌>>=◌}
use besm.Memory.Allocator.{Host, Chunk}
use besm.Memory.Range
use besm.Memory.Range.{Range}
use besm.Memory.Ram.{Ram}
use besm.Memory.PhysMem.{PhysMem}
use besm.Memory.Builder.{Builder, map_ram, empty, build}
use besm.Memory.Loader.{
  Elf, Parsed, parsed, invalid_elf_format, unavailable_elf_requirements, parse, load_elf,
}
use besm.Memory.Prefetcher
use besm.Memory.Prefetcher.{Memory}
use besm.Hart
use besm.Hart.{Hart}
use besm.Sim.Config.{Config}

-- What the machine finds: the host, the files, and the memory that nothing has set yet.
pub record Surroundings : Type 0 where
  pub host : Host
  pub file : List ℕ → Elf
  pub chunks : ℕ → Chunk
  pub rams : ℕ → Ram
  pub encoding : Encoding
  pub cells : ℕ → ℕ
  pub words : RegisterName → ℕ
  pub instrs : ℕ → ℕ → Instruction

-- How the constructor ends: with the machine's hart, or with the exception of a step.
pub data Booting : Type 0 where
  booted : Hart Memory → Booting
  not_mapped : Outcome Builder → Booting
  not_parsed : Parsed → Booting
  not_loaded : Option (Outcome PhysMem) → Booting

-- The loop over the ranges.
unfoldable pub map_ranges : (ℕ → Chunk) → ℕ → ℕ → List Range → Builder → Outcome Builder
map_ranges chunks page_size chunk_size [] builder = done builder
map_ranges chunks page_size chunk_size (range ∷ ranges) builder =
    map_ram range.left_border (Range.size range) page_size chunk_size chunks builder
    >>= (λ mapped. map_ranges chunks page_size chunk_size ranges mapped)

module _ (around : Surroundings) where
  -- `Hart::Create(pMem_, hookManager_)`, whose MMU and prefetcher start here.
  unfoldable pub boot_loaded : Option (Outcome PhysMem) → Booting
  boot_loaded (some (done mem)) =
      booted (Hart.new around.encoding around.cells around.words around.instrs (Prefetcher.new mem))
  boot_loaded ended = not_loaded ended

  -- `PhysMemLoader(pMem_).loadElf(config.executablePath())`
  unfoldable pub boot_parsed : PhysMem → Parsed → Booting
  boot_parsed mem (parsed segments) = boot_loaded (load_elf around.host segments mem)
  boot_parsed mem invalid_elf_format = not_parsed invalid_elf_format
  boot_parsed mem unavailable_elf_requirements = not_parsed unavailable_elf_requirements

  unfoldable pub boot_mapped : Config → Outcome Builder → Booting
  boot_mapped config (done builder) =
      boot_parsed (build builder) (parse (around.file config.executable_path))
  boot_mapped config failed = not_mapped failed

  -- `Machine(config)`
  unfoldable pub new : Config → Booting
  new config = boot_mapped config (
      map_ranges around.chunks config.ram_page_size config.ram_chunk_size config.ram_ranges
        (empty around.rams))
