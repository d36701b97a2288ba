-- ===== src/Memory/Loader.antt =====
-- src/util/elf-parser.cpp and `PhysMemLoader` of src/memory/phys-mem.cpp: the segments of an ELF
-- file, copied into the memory.
use besm.Prelude.{ℕ, ◌==◌, Bool, Option, none, some, List, [], ◌∷◌, if◌then◌else◌}
use besm.Memory.Bytes.{Bytes}
use besm.Memory.Outcome.{
  Outcome, done, unaligned, invalid_address, invalid_argument, mapping_intersection, bad_alloc,
  undefined,
}
use besm.Memory.Allocator.{Host}
use besm.Memory.PhysMem.{PhysMem}
use besm.Memory.Area.{store_cont_area}

-- A segment of a file, as the library ELFIO gives it.
pub record ElfSegment : Type 0 where
  pub type : ℕ
  pub virtual_address : ℕ
  pub source : Bytes
  pub file_size : ℕ

-- A file, as ELFIO reads it: whether it could be loaded, its header, its segments.
pub record Elf : Type 0 where
  pub loads : Bool
  pub class : ℕ
  pub encoding : ℕ
  pub machine : ℕ
  pub segments : List ElfSegment

pub record LoadableSegment : Type 0 where
  pub address : ℕ
  pub source : Bytes
  pub size : ℕ

-- How the parser ends.
pub data Parsed : Type 0 where
  parsed : List LoadableSegment → Parsed
  invalid_elf_format : Parsed
  unavailable_elf_requirements : Parsed

-- `ELFCLASS64`, `ELFDATA2LSB`, `EM_RISCV` and `PT_LOAD` of the ELF format.
abbrev elf_class64 : ℕ
elf_class64 = 2

abbrev elf_data2lsb : ℕ
elf_data2lsb = 1

abbrev em_riscv : ℕ
em_riscv = 243

abbrev pt_load : ℕ
pt_load = 1

-- `getLoadableSegments`
unfoldable pub get_loadable_segments : List ElfSegment → List LoadableSegment
get_loadable_segments [] = []
get_loadable_segments (segment ∷ segments) =
    let rest = get_loadable_segments segments in
    if segment.type == pt_load
    then record {
      address = segment.virtual_address;
      source = segment.source;
      size = segment.file_size;
    }
      ∷ rest
    else rest

-- `ElfParser(elfPath)` with `checkRequirements`, then `getLoadableSegments`.
unfoldable pub parse : Elf → Parsed
parse elf =
    if elf.loads
    then if elf.class == elf_class64
      then if elf.encoding == elf_data2lsb
        then if elf.machine == em_riscv
          then parsed (get_loadable_segments elf.segments)
          else unavailable_elf_requirements
        else unavailable_elf_requirements
      else unavailable_elf_requirements
    else invalid_elf_format

abbrev pub loads_on :
    (PhysMem → Option (Outcome PhysMem)) → Option (Outcome PhysMem) → Option (Outcome PhysMem)
loads_on rest none = none
loads_on rest (some (done mem)) = rest mem
loads_on rest (some unaligned) = some unaligned
loads_on rest (some invalid_address) = some invalid_address
loads_on rest (some invalid_argument) = some invalid_argument
loads_on rest (some mapping_intersection) = some mapping_intersection
loads_on rest (some bad_alloc) = some bad_alloc
loads_on rest (some undefined) = some undefined

module _ (host : Host) where
  -- The loop of `loadElf` over the segments of the file.
  unfoldable pub load_elf : List LoadableSegment → PhysMem → Option (Outcome PhysMem)
  load_elf [] mem = some (done mem)
  load_elf (segment ∷ segments) mem =
      loads_on (λ (later : PhysMem). load_elf segments later)
        (store_cont_area host segment.address segment.source segment.size mem)
