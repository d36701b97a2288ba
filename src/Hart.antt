-- ===== src/Hart.antt =====
-- include/besm-666/sim/hart.hpp and src/sim/hart.cpp: the hart. The state and what it is built on
-- stand here; the children hold the handlers, the run and what is proved of them.
pub mod Signed
pub mod Arithmetic
pub mod Control
pub mod Transfer
pub mod System
pub mod Run
pub mod Dispatch
pub mod Numbers
pub mod Trap
pub mod Return
pub mod Fetch
pub mod Fuel
pub mod Programs
pub mod Start
pub mod Frame
pub mod BlockEnd
pub mod Runs
pub mod Ecall
use besm.Prelude.{
  ℕ, suc, ◌+◌, ◌*◌, ◌/◌, ◌%◌, ◌^◌, ◌==◌, ltb, Bool, true, false, List, [], ◌∷◌, Option, none, some,
  ◌>>=◌, if◌then◌else◌,
}
use besm.BitMagic.{shl, sign_extend}
use besm.Instruction.{Instruction, InstructionOp}
use besm.Decoder.{parse}
use besm.Gprf
use besm.Csr.Field
use besm.Csr.Field.{Field}
use besm.Csr.File
use besm.Csr.File.{Csrf, put}
use besm.Csr.Registers.{Encoding, RegisterName}
use besm.Block
use besm.Block.{Block, BlockCache, lookup, refill}
use besm.Block.Assembly.{Assembled, assembled, thrown, out_of_fuel, assemble}

-- What the hart takes from the memory system (the MMU's loads and stores, by the number of bytes,
-- and the prefetcher's) and from the compiler (a shift of a 64-bit value by 64 or more, which C++
-- leaves undefined). `none` is an exception of a device, which no part of the hart catches.
pub record Platform (M : Type 0) : Type 0 where
  pub load : ℕ → ℕ → M → Option (ℕ × M)
  pub store : ℕ → ℕ → ℕ → M → Option M
  pub fetch : ℕ → M → Option (ℕ × M)
  pub wide_shift_left : ℕ → ℕ → ℕ
  pub wide_shift_right : ℕ → ℕ → ℕ
  pub wide_shift_signed : ℕ → ℕ → ℕ

-- The calls of the hooks, the last one first.
pub data Event : Type 0 where
  bb_fetched : Block → Event
  instr_executed : Instruction → Event

-- `current` is the pointer `currentInstr_`: the block of the cache and the place in it.
pub record Hart (M : Type 0) : Type 0 where
  pub bb_cache : BlockCache
  pub current : ℕ × ℕ
  pub memory : M
  pub gprf : Gprf.Gprf
  pub csrf : Csrf
  pub events : List Event
  pub instrs_executed : ℕ

-- How a handler ends: by `execNextInstr`, by a jump to the current instruction's handler, by a
-- return (from `run` too, since every handler is called last), by `std::terminate`, or with an
-- exception that it lets through.
pub data Step (M : Type 0) : Type 0 where
  next : Hart M → Step M
  dispatch : Hart M → Step M
  returned : Hart M → Step M
  terminated : Step M
  raised : Step M

module _ {M : Type 0} where
  abbrev pub current_instr : Hart M → Instruction
  current_instr hart = (hart.bb_cache.bbs hart.current.0).instrs hart.current.1

  abbrev pub read_register : ℕ → Hart M → ℕ
  read_register reg_id hart = Gprf.read reg_id hart.gprf

  abbrev pub write_register : ℕ → ℕ → Hart M → Hart M
  write_register reg_id value hart = record hart { gprf = Gprf.write reg_id value hart.gprf }

  -- `Hart::nextPC`
  unfoldable pub next_pc : Hart M → Hart M
  next_pc hart = write_register Gprf.pc ((read_register Gprf.pc hart + 32 / 8) % 2 ^ 64) hart

  -- The operands that most handlers read first.
  abbrev pub rs1 : Hart M → ℕ
  rs1 hart = read_register (current_instr hart).rs1 hart

  abbrev pub rs2 : Hart M → ℕ
  rs2 hart = read_register (current_instr hart).rs2 hart

  abbrev pub immidiate : Hart M → ℕ
  immidiate hart = sign_extend 64 12 (current_instr hart).immidiate

  -- The end that most handlers share: `rd` is written, then `nextPC` and `execNextInstr`.
  unfoldable pub write_back : ℕ → Hart M → Step M
  unfolding next_pc
  write_back res hart = next (next_pc (write_register (current_instr hart).rd res hart))

  -- `csrf_.<register>.set<Field>(value)` and `get<Field>()`
  unfoldable pub set_field : RegisterName → Field → ℕ → Hart M → Hart M
  unfolding put Field.set
  set_field name field value hart = record hart {
    csrf = put name (Field.set field value (hart.csrf.value name)).1 hart.csrf;
  }

  unfoldable pub get_field : RegisterName → Field → Hart M → ℕ
  unfolding Field.get
  get_field name field hart = Field.get field (hart.csrf.value name)

  abbrev pub set_privillege : ℕ → Hart M → Hart M
  set_privillege p hart = record hart { csrf = record hart.csrf { privillege = p } }

-- `Hart(pMem, hookManager)` over the cells, the words and the instructions as they were found.
-- `currentInstr_` is null: nothing reads it before `fetchBB` sets it.
unfoldable pub new :
    {M : Type 0} → Encoding → (ℕ → ℕ) → (RegisterName → ℕ) → (ℕ → ℕ → Instruction) → M → Hart M
unfolding Gprf.new File.new Block.new
new enc cells words instrs memory = record {
  bb_cache = Block.new instrs;
  current = (0, 0);
  memory = memory;
  gprf = Gprf.new cells;
  csrf = File.new enc words;
  events = [];
  instrs_executed = 0;
}

module _ {M : Type 0} (platform : Platform M) where
  -- The prefetcher, then the decoder.
  unfoldable pub load_instr : ℕ → M → Option (Instruction × M)
  unfolding parse
  load_instr pc memory = do (bytecode, rest) ← platform.fetch pc memory; some (parse bytecode, rest)

  -- The end of `fetchBB`: the hooks, and the first instruction of the block.
  unfoldable pub enter : ℕ → Hart M → Hart M
  enter index hart = record hart {
    events = bb_fetched (hart.bb_cache.bbs index) ∷ hart.events;
    current = (index, 0);
  }

  -- Its middle, where the block is not there: the assembled block goes where the reference points.
  unfoldable pub fill : ℕ → Hart M → Assembled M → Option (Hart M)
  unfolding refill
  fill index hart (assembled bb memory) =
      some (record hart { bb_cache = refill index bb hart.bb_cache; memory = memory })
  fill index hart thrown = none
  fill index hart out_of_fuel = none

  -- `fetchBB` after the lookup.
  unfoldable pub fetch_at : ℕ → Hart M → Bool × ℕ × BlockCache → Option (Hart M)
  unfolding fill enter assemble load_instr
  fetch_at pc hart (true, index, cache) = some (enter index (record hart { bb_cache = cache }))
  fetch_at pc hart (false, index, cache) = do
    let looked = record hart { bb_cache = cache }
    filled ← fill index looked (assemble load_instr (cache.bbs index) pc hart.memory)
    some (enter index filled)

  -- `Hart::fetchBB`
  unfoldable pub fetch_bb : Hart M → Option (Hart M)
  unfolding lookup fetch_at
  fetch_bb hart = let pc = read_register Gprf.pc hart in fetch_at pc hart (lookup pc hart.bb_cache)
