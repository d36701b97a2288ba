-- ===== src/Tests/Block.antt =====
-- src/exec/basic-block.cpp on the constructor's cache and a short program.
use besm.Prelude.{
  ℕ, suc, ◌*◌, ◌<◌, ◌==◌, true, false, if◌then◌else◌, Option, some, ◌≡◌, refl, arith,
}
use besm.Instruction.{Instruction, InstructionOp, only_operation}
use besm.BitMagic.{shl}
use besm.Block.{Block, BlockCache, new, lookup, find_way, take_way, hash, refill, sets, ways}
use besm.Block.Cache.{IsValid, Looked, lookup_lem, lookup-IsValid, lookup-refill}
use besm.Block.Assembly.{Finished, assemble, assemble-IsFinished}

abbrev cache : BlockCache
cache = new (λ block place. only_operation InstructionOp.inv_op)

cache-IsValid : IsValid cache
unfolding new
cache-IsValid = record { rower = λ set. omega arith }

abbrev jump_block : Block
jump_block = record { instrs = λ i. only_operation InstructionOp.jal; pc = 0x80000040 }

lookup_lem_example : Looked 0x80000040 cache (lookup 0x80000040 cache)
lookup_lem_example = lookup_lem 0x80000040 cache cache-IsValid

lookup-IsValid_example :
    ((lookup 0x80000040 cache).1 < sets * ways) × IsValid (lookup 0x80000040 cache).2
lookup-IsValid_example = lookup-IsValid 0x80000040 cache cache-IsValid

missing : (lookup 0x80000040 cache).0 ≡ false
unfolding lookup find_way take_way new hash shl
missing = refl

lookup-refill_example :
    let (found, index, next) = lookup 0x80000040 cache in
    lookup 0x80000040 (refill index jump_block next) ≡ (true, index, refill index jump_block next)
lookup-refill_example = lookup-refill 0x80000040 cache jump_block cache-IsValid missing refl

-- Two instructions, then a jump, for ever.
abbrev program : ℕ → ℕ → Option (Instruction × ℕ)
program pc loads =
    some (
      only_operation (if pc == 0x80000048 then InstructionOp.jal else InstructionOp.add),
      suc loads,
    )

assemble-IsFinished_example : Finished program 0x80000040 (assemble program jump_block 0x80000040 0)
assemble-IsFinished_example = assemble-IsFinished program jump_block 0x80000040 0 (omega arith)
