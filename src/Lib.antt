-- ===== src/Lib.antt =====
-- BESM-666, a simulator of a RISC-V machine (RV64I with a machine-mode subset), in C++.
--
-- The program. A machine (src/sim/machine.cpp) builds a physical memory of devices, loads an ELF
-- file into it and makes one hart. The hart (src/sim/hart.cpp) fetches a basic block of decoded
-- instructions at its program counter from a cache, or assembles it with the prefetcher and the
-- decoder; it then calls the handler of each instruction, and each handler calls the next one as
-- its last act, until one returns. Handlers read and write the general purpose registers, the
-- control and status registers, and memory through the MMU.
--
-- Which file models which part:
--   BitMagic        include/besm-666/util/bit-magic.hpp, over an unsigned type of w bits
--   Instruction     include/besm-666/instruction.hpp and rv-instruction-op.hpp
--   Decoder         src/decoder/decoder.cpp, with the matrix of operations of
--                   include/besm-666/autogen/operations-matrix.hpp in Decoder/Matrix
--   Gprf            include/besm-666/exec/gprf.hpp
--   Csr             Field is include/besm-666/exec/csr.hpp, Registers is exec/csrs.hpp, File is
--                   src/exec/csrf.cpp
--   Block           src/exec/basic-block.cpp; Block/Assembly is Hart::assembleBB
--   Hart            src/sim/hart.cpp: the state and fetchBB in Hart, the handlers in
--                   Hart/Arithmetic, Control, Transfer and System, the table of handlers and the
--                   run in Hart/Run, the signed numbers in Hart/Signed
--   Memory          Sizes is include/besm-666/util/math.hpp, Range util/range.hpp; Allocator and
--                   Ram are src/memory/ram.cpp; PhysMem, Builder, Area and the end of Loader are
--                   src/memory/phys-mem.cpp; Mmu, Prefetcher and Loader are src/memory/mmu.cpp,
--                   src/memory/prefetcher.cpp and src/util/elf-parser.cpp
--   Sim             Config, Hooks and Machine are src/sim/config.cpp, hooks.cpp and machine.cpp;
--                   Transfers and Fetches put the hart on the memory
--   AssociativeCache  include/besm-666/util/assotiative-cache.hpp
-- The other files below these hold proofs, and Tests the theorems at concrete inputs. A function
-- of the program is the definition of the same name in snake case: Hart::exec_ADDI is exec_addi,
-- CSRF::setBits is Csr.File.set_bits.
--
-- How. A w-bit value is a natural number below 2 ^ w, with the wrap-around written out. An
-- object's method takes the object's record and gives the new one. An array is a function of the
-- index where a bound on the indices is proved, or a list. A pointer to a block is its index in
-- the cache, and currentInstr_ is such an index with a place in the block. An exception of a
-- device is `none`: nothing in the hart catches it. The handlers' chain of last calls is a loop
-- over the steps that they end with, on fuel; its results do not depend on how the fuel is cut.
-- The loop that assembles a block has seven rounds, which are shown to be enough. A shift by 64
-- or more, which C++ leaves undefined, is a function that the platform gives.
--
-- The memory. A host pointer is a chunk of an allocator with an offset in it, or null; reading and
-- writing through it goes to the bytes of that chunk, little-endian, so that the prefetcher's saved
-- pointer and a store through the page map meet in the same bytes. The devices are shared objects:
-- the map names them, and they stand in a table. An operation of the memory ends in an outcome
-- that tells the exceptions apart; the hart's interface forgets which one it was. Assertions are
-- taken as compiled out. The abstract view of all of it is one function from addresses to bytes,
-- zero where no page is. The loop of storeContArea has as many turns of fuel as there are bytes
-- to copy, which are shown to be enough.
--
-- Parameters. The masks of mstatus, which the build generates from the RISC-V project's
-- encoding.h, are a record, with the layout of the manual as the hypothesis IsStandard. The host
-- gives its page size and the bytes of each mapping; that anonymous mappings are zeros is the
-- hypothesis IsAnonymous. A file is what the library ELFIO reads of it. The hart takes loads,
-- stores and fetches as a record, Platform, which Memory/Prefetcher fills.
--
-- Not modelled: the destructors (nothing looks at unmapped bytes again), a failed mmap other than a
-- null pointer, the names of device types, the dumpers and log lines, which only print, and the
-- command line and the mmap wrapper, which only call libraries and the operating system. What an
-- exception of the memory leaves behind is not kept, since nothing in the simulator catches it.
pub mod Prelude
pub mod BitMagic
pub mod Instruction
pub mod Decoder
pub mod Gprf
pub mod Csr
pub mod Block
pub mod Memory
pub mod Hart
pub mod Sim
pub mod AssociativeCache
mod Tests
