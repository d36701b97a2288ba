-- ===== src/Hart/Frame.antt =====
-- What the handlers of the plain instructions leave alone, and what they write.
use besm.Prelude.{
  ℕ, ◌*◌, ◌%◌, ltb, not, ◌^◌, ◌==◌, Bool, true, false, none, Option-cases, inl, inr, ◌⊎◌, ◌≡◌, refl,
}
use besm.Instruction.{InstructionOp}
use besm.Csr.Registers.{Encoding}
use besm.Hart.{
  Hart, Step, Platform, next, dispatch, returned, terminated, raised, rs1, rs2, next_pc, write_back,
}
use besm.Hart.Arithmetic
use besm.Hart.Control
use besm.Hart.Signed.{widen}
use besm.Hart.Transfer
use besm.Hart.System
use besm.Hart.Run.{handler}

-- The instructions that compute, jump, branch, load or store, and the fences.
abbrev pub is_plain : InstructionOp → Bool
is_plain InstructionOp.inv_op = false
is_plain InstructionOp.pause = false
is_plain InstructionOp.ecall = false
is_plain InstructionOp.ebreak = false
is_plain InstructionOp.csrrw = false
is_plain InstructionOp.csrrs = false
is_plain InstructionOp.csrrc = false
is_plain InstructionOp.csrrwi = false
is_plain InstructionOp.csrrsi = false
is_plain InstructionOp.csrrci = false
is_plain InstructionOp.sret = false
is_plain InstructionOp.mret = false
is_plain InstructionOp.bb_end = false
is_plain _ = true

module _ {M : Type 0} (platform : Platform M) where
  -- The memory throws at some load or store.
  unfoldable pub Throws : Type 0
  Throws =
      (bytes : ℕ) × (address : ℕ) × (memory : M) × ((platform.load bytes address memory ≡ none)
        ⊎ ((value : ℕ) × (platform.store bytes address value memory ≡ none)))

  -- A step that goes on in the same block with the same control registers, or lets an exception
  -- of the memory through.
  unfoldable pub Kept : Hart M → Step M → Type 0
  Kept hart (next after) =
      (after.bb_cache ≡ hart.bb_cache)
      × (after.current ≡ hart.current)
      × (after.csrf ≡ hart.csrf)
      × (after.events ≡ hart.events)
      × (after.instrs_executed ≡ hart.instrs_executed)
  Kept hart (dispatch after) = ⊥
  Kept hart (returned after) = ⊥
  Kept hart terminated = ⊥
  Kept hart raised = Throws

  branch-Kept : (taken : Bool) (hart : Hart M) → Kept hart (Control.branch taken hart)
  unfolding Kept Control.branch next_pc
  branch-Kept true hart = (refl, refl, refl, refl, refl)
  branch-Kept false hart = (refl, refl, refl, refl, refl)

  load_by-Kept :
      (bytes : ℕ) (extend : ℕ → ℕ) (hart : Hart M)
      → Kept hart (Transfer.load_by platform bytes extend hart)
  unfolding Kept Throws Transfer.load_by write_back
  load_by-Kept bytes extend hart =
      elim (Option-cases (platform.load bytes (Transfer.address platform hart) hart.memory)) [
        | inl e ↦ rw (Kept, e) (bytes, Transfer.address platform hart, hart.memory, inl e)
        | inr ((value, memory), e) ↦ rw (Kept, e) (refl, refl, refl, refl, refl)
      ]

  store_by-Kept : (bytes : ℕ) (hart : Hart M) → Kept hart (Transfer.store_by platform bytes hart)
  unfolding Kept Throws Transfer.store_by next_pc
  store_by-Kept bytes hart =
      elim (Option-cases (
        platform.store bytes (Transfer.address platform hart) (rs2 hart % 2 ^ (8 * bytes))
          hart.memory)) [
            | inl e ↦
                rw (Kept, e)
                  (
                    bytes,
                    Transfer.address platform hart,
                    hart.memory,
                    inr (rs2 hart % 2 ^ (8 * bytes), e),
                  )
            | inr (memory, e) ↦ rw (Kept, e) (refl, refl, refl, refl, refl)
          ]

  -- A plain instruction goes on to the next one of the block: it changes no control register and
  -- neither the cache of blocks nor the pointer into it, and calls no hook. Otherwise the memory
  -- throws at a load or a store.
  pub handler-Kept :
      (enc : Encoding) (op : InstructionOp) (hart : Hart M)
      → is_plain op ≡ true
      → Kept hart (handler platform enc op hart)
  unfolding handler Kept next_pc Arithmetic.exec_addi Arithmetic.exec_slti Arithmetic.exec_sltiu
      Arithmetic.exec_ori Arithmetic.exec_andi Arithmetic.exec_xori Arithmetic.exec_slli
      Arithmetic.exec_srli Arithmetic.exec_srai Arithmetic.exec_lui Arithmetic.exec_auipc
      Arithmetic.exec_add Arithmetic.exec_slt Arithmetic.exec_sltu Arithmetic.exec_and
      Arithmetic.exec_or Arithmetic.exec_xor Arithmetic.exec_sub Arithmetic.exec_addiw
      Arithmetic.exec_addw Arithmetic.exec_subw Arithmetic.exec_sll Arithmetic.exec_srl
      Arithmetic.exec_sra Arithmetic.exec_slliw Arithmetic.exec_srliw Arithmetic.exec_sraiw
      Arithmetic.exec_sllw Arithmetic.exec_srlw Arithmetic.exec_sraw Control.exec_jal
      Control.exec_jalr Control.exec_beq Control.exec_bne Control.exec_blt Control.exec_bltu
      Control.exec_bge Control.exec_bgeu Transfer.exec_lb Transfer.exec_lh Transfer.exec_lw
      Transfer.exec_ld Transfer.exec_lbu Transfer.exec_lhu Transfer.exec_lwu Transfer.exec_sb
      Transfer.exec_sh Transfer.exec_sw Transfer.exec_sd System.exec_fence System.exec_fence_tso
  handler-Kept enc InstructionOp.inv_op hart h = cc
  handler-Kept enc InstructionOp.lui hart h = (refl, refl, refl, refl, refl)
  handler-Kept enc InstructionOp.auipc hart h = (refl, refl, refl, refl, refl)
  handler-Kept enc InstructionOp.jal hart h = (refl, refl, refl, refl, refl)
  handler-Kept enc InstructionOp.jalr hart h = (refl, refl, refl, refl, refl)
  handler-Kept enc InstructionOp.beq hart h = branch-Kept (rs1 hart == rs2 hart) hart
  handler-Kept enc InstructionOp.bne hart h = branch-Kept (not (rs1 hart == rs2 hart)) hart
  handler-Kept enc InstructionOp.blt hart h =
      branch-Kept (Arithmetic.signed_less (rs1 hart) (rs2 hart)) hart
  handler-Kept enc InstructionOp.bge hart h =
      branch-Kept (not (Arithmetic.signed_less (rs1 hart) (rs2 hart))) hart
  handler-Kept enc InstructionOp.bltu hart h = branch-Kept (ltb (rs1 hart) (rs2 hart)) hart
  handler-Kept enc InstructionOp.bgeu hart h = branch-Kept (not (ltb (rs1 hart) (rs2 hart))) hart
  handler-Kept enc InstructionOp.lb hart h = load_by-Kept 1 (widen 8) hart
  handler-Kept enc InstructionOp.lh hart h = load_by-Kept 2 (widen 16) hart
  handler-Kept enc InstructionOp.lw hart h = load_by-Kept 4 (widen 32) hart
  handler-Kept enc InstructionOp.lbu hart h = load_by-Kept 1 (λ value. value) hart
  handler-Kept enc InstructionOp.lhu hart h = load_by-Kept 2 (λ value. value) hart
  handler-Kept enc InstructionOp.sb hart h = store_by-Kept 1 hart
  handler-Kept enc InstructionOp.sh hart h = store_by-Kept 2 hart
  handler-Kept enc InstructionOp.sw hart h = store_by-Kept 4 hart
  handler-Kept enc InstructionOp.addi hart h = (refl, refl, refl, refl, refl)
  handler-Kept enc InstructionOp.slti hart h = (refl, refl, refl, refl, refl)
  handler-Kept enc InstructionOp.sltiu hart h = (refl, refl, refl, refl, refl)
  handler-Kept enc InstructionOp.xori hart h = (refl, refl, refl, refl, refl)
  handler-Kept enc InstructionOp.ori hart h = (refl, refl, refl, refl, refl)
  handler-Kept enc InstructionOp.andi hart h = (refl, refl, refl, refl, refl)
  handler-Kept enc InstructionOp.add hart h = (refl, refl, refl, refl, refl)
  handler-Kept enc InstructionOp.sub hart h = (refl, refl, refl, refl, refl)
  handler-Kept enc InstructionOp.sll hart h = (refl, refl, refl, refl, refl)
  handler-Kept enc InstructionOp.slt hart h = (refl, refl, refl, refl, refl)
  handler-Kept enc InstructionOp.sltu hart h = (refl, refl, refl, refl, refl)
  handler-Kept enc InstructionOp.xor hart h = (refl, refl, refl, refl, refl)
  handler-Kept enc InstructionOp.srl hart h = (refl, refl, refl, refl, refl)
  handler-Kept enc InstructionOp.sra hart h = (refl, refl, refl, refl, refl)
  handler-Kept enc InstructionOp.or hart h = (refl, refl, refl, refl, refl)
  handler-Kept enc InstructionOp.and hart h = (refl, refl, refl, refl, refl)
  handler-Kept enc InstructionOp.fence hart h = (refl, refl, refl, refl, refl)
  handler-Kept enc InstructionOp.fence_tso hart h = (refl, refl, refl, refl, refl)
  handler-Kept enc InstructionOp.pause hart h = cc
  handler-Kept enc InstructionOp.ecall hart h = cc
  handler-Kept enc InstructionOp.ebreak hart h = cc
  handler-Kept enc InstructionOp.lwu hart h = load_by-Kept 4 (λ value. value) hart
  handler-Kept enc InstructionOp.ld hart h = load_by-Kept 8 (λ value. value) hart
  handler-Kept enc InstructionOp.sd hart h = store_by-Kept 8 hart
  handler-Kept enc InstructionOp.slli hart h = (refl, refl, refl, refl, refl)
  handler-Kept enc InstructionOp.srli hart h = (refl, refl, refl, refl, refl)
  handler-Kept enc InstructionOp.srai hart h = (refl, refl, refl, refl, refl)
  handler-Kept enc InstructionOp.addiw hart h = (refl, refl, refl, refl, refl)
  handler-Kept enc InstructionOp.slliw hart h = (refl, refl, refl, refl, refl)
  handler-Kept enc InstructionOp.srliw hart h = (refl, refl, refl, refl, refl)
  handler-Kept enc InstructionOp.sraiw hart h = (refl, refl, refl, refl, refl)
  handler-Kept enc InstructionOp.addw hart h = (refl, refl, refl, refl, refl)
  handler-Kept enc InstructionOp.subw hart h = (refl, refl, refl, refl, refl)
  handler-Kept enc InstructionOp.sllw hart h = (refl, refl, refl, refl, refl)
  handler-Kept enc InstructionOp.srlw hart h = (refl, refl, refl, refl, refl)
  handler-Kept enc InstructionOp.sraw hart h = (refl, refl, refl, refl, refl)
  handler-Kept enc InstructionOp.csrrw hart h = cc
  handler-Kept enc InstructionOp.csrrs hart h = cc
  handler-Kept enc InstructionOp.csrrc hart h = cc
  handler-Kept enc InstructionOp.csrrwi hart h = cc
  handler-Kept enc InstructionOp.csrrsi hart h = cc
  handler-Kept enc InstructionOp.csrrci hart h = cc
  handler-Kept enc InstructionOp.sret hart h = cc
  handler-Kept enc InstructionOp.mret hart h = cc
  handler-Kept enc InstructionOp.bb_end hart h = cc
