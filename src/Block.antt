-- ===== src/Block.antt =====
-- include/besm-666/exec/basic-block.hpp and src/exec/basic-block.cpp: a basic block, the cache of
-- blocks and the rebuilder. An array is a function of the index; that the indices stay inside is
-- proved in Block/Cache and Block/Assembly.
pub mod Cache
pub mod Assembly
use besm.Prelude.{
  ℕ, zero, suc, ◌+◌, ◌-◌, ◌*◌, ◌/◌, ◌^◌, ◌==◌, bit_and, Bool, true, false, ◌||◌, Option, none, some,
  if◌then◌else◌,
}
use besm.BitMagic.{shl}
use besm.Instruction.{Instruction, InstructionOp, is_jump, only_operation}

abbrev pub capacity : ℕ
capacity = 8

pub record Block : Type 0 where
  pub instrs : ℕ → Instruction
  pub pc : ℕ

-- `BasicBlock()` over the instructions as they were found.
unfoldable pub poisoned : (ℕ → Instruction) → Block
poisoned found = record {
  instrs = λ i. if i == 0 then (record (found i) { operation = InstructionOp.inv_op }) else found i;
  pc = 1;
}

abbrev pub sets : ℕ
sets = 2 ^ 7

abbrev pub ways : ℕ
ways = 2 ^ 3

abbrev pub set_mask : ℕ
set_mask = sets - 1

abbrev pub way_mask : ℕ
way_mask = ways - 1

pub record BlockCache : Type 0 where
  pub bbs : ℕ → Block
  pub lru_rowers : ℕ → ℕ

-- `BasicBlockCache()`
unfoldable pub new : (ℕ → ℕ → Instruction) → BlockCache
unfolding poisoned
new found = record { bbs = λ i. poisoned (found i); lru_rowers = λ i. 0 }

unfoldable pub hash : ℕ → ℕ
unfolding shl
hash pc = bit_and pc (shl 64 set_mask 5) / 2 ^ 5

-- The loop over the ways of a set, with the number of ways left.
unfoldable pub find_way : ℕ → ℕ → ℕ → BlockCache → Option ℕ
find_way zero index pc cache = none
find_way (suc left) index pc cache =
    let rest = find_way left (suc index) pc cache in
    if (cache.bbs index).pc == pc then some index else rest

-- What the search gives, or else the next way in turn, whose rower moves on.
unfoldable pub take_way : ℕ → BlockCache → Option ℕ → Bool × ℕ × BlockCache
unfolding hash
take_way pc cache (some index) = (true, index, cache)
take_way pc cache none = (
  false,
  cache.lru_rowers (hash pc) + hash pc * ways,
  record cache {
    lru_rowers = λ i.
        if i == hash pc
        then bit_and (cache.lru_rowers (hash pc) + 1) way_mask
        else cache.lru_rowers i;
  },
)

-- `BasicBlockCache::lookup`: whether the block was found, the index of the block that the caller
-- gets a reference to, and the cache.
unfoldable pub lookup : ℕ → BlockCache → Bool × ℕ × BlockCache
unfolding hash find_way take_way
lookup pc cache = take_way pc cache (find_way ways (hash pc * ways) pc cache)

-- A write through the reference that `lookup` gives.
unfoldable pub refill : ℕ → Block → BlockCache → BlockCache
refill index bb cache = record cache { bbs = λ i. if i == index then bb else cache.bbs i }

pub record Rebuilder : Type 0 where
  pub bb : Block
  pub count : ℕ

-- `BasicBlockRebuilder(targetBB, pc)`
unfoldable pub rebuild : Block → ℕ → Rebuilder
rebuild target pc = record { bb = record target { pc = pc }; count = 0 }

-- A write of `instrs_[i]`.
unfoldable pub put_instr : ℕ → Instruction → Block → Block
put_instr i instr bb = record bb { instrs = λ j. if j == i then instr else bb.instrs j }

-- `instrs_[count_].operation = BB_END`
unfoldable pub ended : ℕ → Block → Rebuilder
ended count bb = record {
  bb = put_instr count (record (bb.instrs count) { operation = InstructionOp.bb_end }) bb;
  count = count;
}

-- `BasicBlockRebuilder::append`
unfoldable pub append : Instruction → Rebuilder → Bool × Rebuilder
append instr rebuilder =
    let filled = put_instr rebuilder.count instr rebuilder.bb in
    let count = suc rebuilder.count in
    if is_jump instr.operation || (count == capacity - 1)
    then (false, ended count filled)
    else (true, record { bb = filled; count = count })
