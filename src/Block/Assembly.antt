-- ===== src/Block/Assembly.antt =====
-- src/sim/hart.cpp, `Hart::assembleBB`: the loop that fills a block from the words at an address.
-- `load` is the prefetcher followed by the decoder, and may throw.
use besm.Prelude.{
  ℕ, zero, suc, ◌+◌, ◌-◌, ◌*◌, ◌%◌, ◌^◌, ◌≤◌, ◌<◌, ◌==◌, ==_iff, true, false, Option, none, some,
  Option-cases, Bool-cases, inl, inr, if◌then◌else◌, ◌≡◌, ◌≢◌, ◌⊎◌, refl, ap, ◌∙◌, subst, arith,
}
use besm.Prelude.Bits.{suc-sub-one}
use besm.Instruction.{Instruction, InstructionOp, is_jump}
use besm.Block.{Block, Rebuilder, capacity, rebuild, append, put_instr, ended}

put_self : (i : ℕ) (instr : Instruction) (bb : Block) → (put_instr i instr bb).instrs i ≡ instr
unfolding put_instr
put_self i instr bb = rw ((==_iff i i).1 refl)

put_other :
    (i j : ℕ) (instr : Instruction) (bb : Block)
    → j ≢ i
    → (put_instr i instr bb).instrs j ≡ bb.instrs j
unfolding put_instr
put_other i j instr bb n = elim (Bool-cases (j == i)) [
  | inl same ↦ absurd (n ((==_iff j i).0 same))
  | inr differs ↦ rw differs
]

put_pc : (i : ℕ) (instr : Instruction) (bb : Block) → (put_instr i instr bb).pc ≡ bb.pc
unfolding put_instr
put_pc i instr bb = refl

pub data Assembled (M : Type 0) : Type 0 where
  assembled : Block → M → Assembled M
  thrown : Assembled M
  out_of_fuel : Assembled M

module _ {M : Type 0} (load : ℕ → M → Option (Instruction × M)) where
  -- The `while` loop, with the number of rounds it may take.
  unfoldable pub assemble_loop : ℕ → ℕ → Rebuilder → M → Assembled M
  assemble_loop zero pc rebuilder memory = out_of_fuel
  assemble_loop (suc fuel) pc rebuilder memory = elim (load pc memory) [
    | none ↦ thrown
    | some (instr, next) ↦
        let (more, filled) = append instr rebuilder in
        let rest = assemble_loop fuel ((pc + 4) % 2 ^ 64) filled next in
        if more then rest else assembled filled.bb next
  ]

  unfoldable pub assemble : Block → ℕ → M → Assembled M
  unfolding assemble_loop rebuild
  assemble bb pc memory = assemble_loop (capacity - 1) pc (rebuild bb pc) memory

  -- A finished block: it has the address, up to `last` it holds what was loaded from the addresses
  -- on from it, none but the last of these is a jump, and then it ends.
  pub record IsFinished (pc : ℕ) (bb : Block) : Type 0 where
    pub last : ℕ
    pub starts : 0 < last
    pub fits : last < capacity
    pub at : bb.pc ≡ pc
    pub code :
        (i : ℕ)
        → i < last
        → (before : M) × (after : M) × (load ((pc + 4 * i) % 2 ^ 64) before
            ≡ some (bb.instrs i, after))
    pub straight : (i : ℕ) → i < last - 1 → is_jump (bb.instrs i).operation ≡ false
    pub complete : (is_jump (bb.instrs (last - 1)).operation ≡ true) ⊎ (last ≡ capacity - 1)
    pub ends : (bb.instrs last).operation ≡ InstructionOp.bb_end

  -- The load of one of the seven words from an address on throws, at some memory.
  unfoldable pub Throws : ℕ → Type 0
  Throws pc =
      (i : ℕ) × (i < capacity - 1) × (before : M) × (load ((pc + 4 * i) % 2 ^ 64) before ≡ none)

  unfoldable pub Finished : ℕ → Assembled M → Type 0
  Finished pc (assembled bb memory) = IsFinished pc bb
  Finished pc thrown = Throws pc
  Finished pc out_of_fuel = ⊥

  -- A block on its way.
  record IsPartial (pc : ℕ) (rebuilder : Rebuilder) : Type 0 where
    below : rebuilder.count < capacity - 1
    at : rebuilder.bb.pc ≡ pc
    code :
        (i : ℕ)
        → i < rebuilder.count
        → (before : M) × (after : M) × (load ((pc + 4 * i) % 2 ^ 64) before
            ≡ some (rebuilder.bb.instrs i, after))
    straight : (i : ℕ) → i < rebuilder.count → is_jump (rebuilder.bb.instrs i).operation ≡ false

  grown :
      (pc : ℕ) (instr : Instruction) (rebuilder : Rebuilder) (before after : M)
      → IsPartial pc rebuilder
      → load ((pc + 4 * rebuilder.count) % 2 ^ 64) before ≡ some (instr, after)
      → (i : ℕ) → i < suc rebuilder.count
      → (b : M) × (a : M) × (load ((pc + 4 * i) % 2 ^ 64) b
          ≡ some ((put_instr rebuilder.count instr rebuilder.bb).instrs i, a))
  unfolding put_instr
  grown pc instr rebuilder before after part got i h = elim (Bool-cases (i == rebuilder.count)) [
    | inl same ↦ (before, after, rw (same, (==_iff i rebuilder.count).0 same) got)
    | inr differs ↦ rw differs (part.code i (ground arith))
  ]

  closed :
      (pc : ℕ) (instr : Instruction) (rebuilder : Rebuilder) (before after : M)
      → IsPartial pc rebuilder
      → load ((pc + 4 * rebuilder.count) % 2 ^ 64) before ≡ some (instr, after)
      → (is_jump instr.operation ≡ true) ⊎ (suc rebuilder.count ≡ capacity - 1)
      → IsFinished pc
          (ended (suc rebuilder.count) (put_instr rebuilder.count instr rebuilder.bb)).bb
  unfolding ended
  closed pc instr rebuilder before after part got stop = record {
    last = suc rebuilder.count;
    starts = omega arith;
    fits = omega (arith, part.below);
    at = put_pc _ _ _ ∙ put_pc _ _ _ ∙ part.at;
    code = λ i h.
        rw (put_other (suc rebuilder.count) i _ _ (λ e. omega arith))
          (grown pc instr rebuilder before after part got i h);
    straight = λ i h.
        rw
          (
            put_other (suc rebuilder.count) i _ _ (λ e. omega arith),
            put_other rebuilder.count i instr rebuilder.bb (λ e. omega arith),
          )
          (part.straight i (omega arith));
    complete = elim stop [
      | inr full ↦ inr full
      | inl jump ↦ inl (
          rw
            (
              suc-sub-one rebuilder.count,
              put_other (suc rebuilder.count) rebuilder.count _ _ (λ e. omega arith),
              put_self rebuilder.count instr rebuilder.bb,
            )
            jump)
    ];
    ends = ap (λ x. x.operation) (put_self _ _ _);
  }

  opened :
      (pc : ℕ) (instr : Instruction) (rebuilder : Rebuilder) (before after : M)
      → IsPartial pc rebuilder
      → load ((pc + 4 * rebuilder.count) % 2 ^ 64) before ≡ some (instr, after)
      → is_jump instr.operation ≡ false
      → suc rebuilder.count ≢ capacity - 1
      → IsPartial pc (record {
        bb = put_instr rebuilder.count instr rebuilder.bb;
        count = suc rebuilder.count;
      })
  opened pc instr rebuilder before after part got plain room = record {
    below = grind (arith, part.below);
    at = put_pc _ _ _ ∙ part.at;
    code = grown pc instr rebuilder before after part got;
    straight = λ i h. elim (Bool-cases (i == rebuilder.count)) [
      | inl same ↦
          rw ((==_iff i rebuilder.count).0 same, put_self rebuilder.count instr rebuilder.bb) plain
      | inr differs ↦
          rw
            (put_other rebuilder.count i instr rebuilder.bb
              (λ e. cc (differs, (==_iff i rebuilder.count).1 e)))
            (part.straight i (ground arith))
    ];
  }

  -- What an instruction does to a block on its way.
  appended :
      (instr : Instruction) (rebuilder : Rebuilder)
      → ((append instr rebuilder
            ≡ (false, ended (suc rebuilder.count) (put_instr rebuilder.count instr rebuilder.bb)))
          × ((is_jump instr.operation ≡ true) ⊎ (suc rebuilder.count ≡ capacity - 1)))
        ⊎ ((append instr rebuilder ≡ (
          true,
          record { bb = put_instr rebuilder.count instr rebuilder.bb; count = suc rebuilder.count },
        ))
            × (is_jump instr.operation ≡ false)
            × (suc rebuilder.count ≢ capacity - 1))
  unfolding append
  appended instr rebuilder = elim (Bool-cases (is_jump instr.operation)) [
    | inl jump ↦ inl (rw jump, inl jump)
    | inr plain ↦ elim (Bool-cases (suc rebuilder.count == capacity - 1)) [
      | inl full ↦ inl (rw (plain, full), inr ((==_iff _ _).0 full))
      | inr room ↦ inr (rw (plain, room), plain, λ e. cc (room, (==_iff _ _).1 e))
    ]
  ]

  next_address :
      (pc count : ℕ) → ((pc + 4 * count) % 2 ^ 64 + 4) % 2 ^ 64 ≡ (pc + 4 * suc count) % 2 ^ 64
  next_address pc count = omega arith

  assemble_loop_lem :
      (fuel pc : ℕ) (rebuilder : Rebuilder) (memory : M)
      → IsPartial pc rebuilder
      → capacity - 1 ≤ rebuilder.count + fuel
      → Finished pc (assemble_loop fuel ((pc + 4 * rebuilder.count) % 2 ^ 64) rebuilder memory)
  unfolding assemble_loop Finished Throws
  assemble_loop_lem zero pc rebuilder memory part enough = absurd (omega (arith, part.below))
  assemble_loop_lem (suc fuel) pc rebuilder memory part enough =
      elim (Option-cases (load ((pc + 4 * rebuilder.count) % 2 ^ 64) memory)) [
        | inl e ↦ rw (Finished, e) (rebuilder.count, part.below, memory, e)
        | inr ((instr, next), e) ↦ elim (appended instr rebuilder) [
          | inl (ends, stop) ↦
              rw (Finished, e, ends) (closed pc instr rebuilder memory next part e stop)
          | inr (goes, plain, room) ↦
              rw (Finished, e, goes, next_address pc rebuilder.count)
                (assemble_loop_lem fuel pc _ next
                  (opened pc instr rebuilder memory next part e plain room) (omega arith))
        ]
      ]

  -- The loop ends within seven rounds: unless the load of one of the seven words throws, the block
  -- has the address, holds what was loaded from it on, stops after the first jump or the seventh
  -- instruction, and has BB_END after that, inside its array.
  pub assemble-IsFinished :
      (bb : Block) (pc : ℕ) (memory : M) → pc < 2 ^ 64 → Finished pc (assemble bb pc memory)
  unfolding assemble rebuild
  assemble-IsFinished bb pc memory h =
      subst (λ a. Finished pc (assemble_loop 7 a (rebuild bb pc) memory)) (start pc h)
        (assemble_loop_lem 7 pc (rebuild bb pc) memory
          (record {
            below = omega arith;
            at = refl;
            code = λ i p. absurd (omega arith);
            straight = λ i p. absurd (omega arith);
          })
          (omega arith))
    where
      start : (a : ℕ) → a < 2 ^ 64 → (a + 4 * 0) % 2 ^ 64 ≡ a
      start a p = omega arith
