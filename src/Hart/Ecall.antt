-- ===== src/Hart/Ecall.antt =====
-- What ECALL does at each level, up to the handler that is called next.
use besm.Prelude.{
  ℕ, suc, ◌+◌, ◌-◌, ◌%◌, ◌^◌, ◌<◌, ◌==◌, ==_iff, Bool-cases, true, inl, inr, some, ◌≡◌, ◌≢◌, ◌⊎◌,
  refl, sym, ap, ◌∙◌, subst, arith,
}
use besm.Csr.File.{Csrf}
use besm.Csr.Registers.{Encoding, IsStandard, RegisterName}
use besm.Hart.{Hart, Platform, next, set_field, current_instr, load_instr, read_register}
use besm.Gprf
use besm.Instruction.{InstructionOp, is_jump}
use besm.Block.Assembly.{IsFinished}
use besm.Hart.Run.{advance, call_handler}
use besm.Hart.Fetch.{IsSteady, Entered, fetch_bb_lem}
use besm.Hart.BlockEnd.{Starts, bb_end-Starts}
use besm.Hart.Return.{IsSound, trap_entry, trap_lem}
use besm.Hart.System.{trap, save_status, raise_exception, exec_ecall, ecall_at, or_raised}

entry-lt : (mtvec id : ℕ) → mtvec < 2 ^ 64 → trap_entry mtvec id < 2 ^ 64
entry-lt mtvec id h = ground arith

entry-ne_one : (mtvec id : ℕ) → trap_entry mtvec id ≢ 1
entry-ne_one mtvec id e = ground arith

module _ {M : Type 0} (platform : Platform M) (enc : Encoding) (standard : IsStandard enc) where
  same_cache :
      (id : ℕ) (hart : Hart M)
      → IsSteady platform hart.bb_cache
      → IsSteady platform (trap enc id hart).bb_cache
  unfolding trap save_status set_field
  same_cache id hart steady = steady

  raised_by :
      (hart : Hart M) (id : ℕ) (entered : Hart M)
      → IsSteady platform hart.bb_cache
      → IsSound enc standard hart
      → id < 2 ^ 63
      → raise_exception platform enc id hart ≡ some entered
      → Entered platform (trap enc id hart) (some entered)
  unfolding raise_exception
  raised_by hart id entered steady sound i e =
      let t = trap_lem enc standard id hart sound i in
      let mtvec = hart.csrf.value RegisterName.mtvec in
      subst (Entered platform (trap enc id hart)) e (
        fetch_bb_lem platform (trap enc id hart) (same_cache id hart steady)
          (rw t.5 (entry-lt mtvec id (sound.words RegisterName.mtvec)))
          (λ one. entry-ne_one mtvec id (sym t.5 ∙ one)))

  at_level :
      (hart entered : Hart M) (level : ℕ)
      → hart.csrf.privillege ≡ level
      → raise_exception platform enc (8 + hart.csrf.privillege) hart ≡ some entered
      → raise_exception platform enc (8 + level) hart ≡ some entered
  at_level hart entered level e r =
      subst (λ p. raise_exception platform enc (8 + p) hart ≡ some entered) e r

  called :
      (hart entered : Hart M)
      → (hart.csrf.privillege ≡ 0) ⊎ ((hart.csrf.privillege ≡ 1) ⊎ (hart.csrf.privillege ≡ 3))
      → raise_exception platform enc (8 + hart.csrf.privillege) hart ≡ some entered
      → exec_ecall platform enc hart ≡ next entered
  unfolding exec_ecall ecall_at or_raised
  called hart entered (inl user) e =
      subst (λ p. ecall_at platform enc p hart ≡ next entered) (sym user)
        (ap (or_raised next) (at_level hart entered 0 user e))
  called hart entered (inr (inl supervisor)) e =
      subst (λ p. ecall_at platform enc p hart ≡ next entered) (sym supervisor)
        (ap (or_raised next) (at_level hart entered 1 supervisor e))
  called hart entered (inr (inr machine)) e =
      subst (λ p. ecall_at platform enc p hart ≡ next entered) (sym machine)
        (ap (or_raised next) (at_level hart entered 3 machine e))

  -- What is executed behind a trap that entered a block at an address. The second place of the
  -- block is the current one: it holds what was loaded from the second word, or, where the block is
  -- a single jump, its BB_END, whose handler goes to the first instruction of a whole block of the
  -- program counter.
  unfoldable pub Skips : ℕ → Hart M → Type 0
  Skips address hart =
      ((before : M) × (after : M) × (load_instr platform ((address + 4) % 2 ^ 64) before
          ≡ some (current_instr hart, after)))
      ⊎ ((is_jump ((hart.bb_cache.bbs hart.current.0).instrs 0).operation ≡ true)
          × ((current_instr hart).operation ≡ InstructionOp.bb_end)
          × Starts platform hart (call_handler platform enc hart))

  skipped :
      (address : ℕ) (hart : Hart M)
      → IsSteady platform hart.bb_cache
      → read_register Gprf.pc hart < 2 ^ 64
      → read_register Gprf.pc hart ≢ 1
      → hart.current.1 ≡ 1
      → IsFinished (load_instr platform) address (hart.bb_cache.bbs hart.current.0)
      → Skips address hart
  unfolding Skips
  skipped address hart steady bound odd at whole = elim (Bool-cases (whole.last == 1)) [
    | inl one ↦
        let e : whole.last ≡ 1 = (==_iff whole.last 1).0 one in
        let ends : (current_instr hart).operation ≡ InstructionOp.bb_end =
          rw (at, sym e) whole.ends in
        elim whole.complete [
          | inl jump ↦ inr (
            subst
                (λ last.
                  is_jump ((hart.bb_cache.bbs hart.current.0).instrs (last - 1)).operation ≡ true)
                e jump,
            ends,
            bb_end-Starts platform enc hart ends steady bound odd,
          )
          | inr full ↦ absurd (omega (arith, e, full))
        ]
    | inr more ↦ inl (rw at (whole.code 1 (ground (arith, whole.starts, more))))
  ]

  -- ECALL at one of the three levels, at a sound hart with a steady cache, where `raiseException`
  -- does not throw: the hart is in machine mode with the cause of its level, its program counter is
  -- the trap entry, and its block is a whole one of the trap entry. The handler called next is that
  -- of the second place of the block. That place holds what was loaded from the second word of the
  -- trap entry; or the first one holds a jump and the second one BB_END, whose handler dispatches
  -- the first instruction of a whole block of the trap entry, or a load of that block throws.
  pub ecall-Skips :
      (hart entered : Hart M)
      → IsSteady platform hart.bb_cache
      → IsSound enc standard hart
      → (hart.csrf.privillege ≡ 0) ⊎ ((hart.csrf.privillege ≡ 1) ⊎ (hart.csrf.privillege ≡ 3))
      → raise_exception platform enc (8 + hart.csrf.privillege) hart ≡ some entered
      → let cause = 8 + hart.csrf.privillege in
        let entry = trap_entry (hart.csrf.value RegisterName.mtvec) cause in
        (exec_ecall platform enc hart ≡ next entered)
        × (entered.csrf.privillege ≡ 3)
        × (entered.csrf.value RegisterName.mcause ≡ cause)
        × (read_register Gprf.pc entered ≡ entry)
        × IsFinished (load_instr platform) entry (entered.bb_cache.bbs entered.current.0)
        × ((advance entered).current ≡ (entered.current.0, 1))
        × Skips entry (advance entered)
  unfolding advance Entered
  ecall-Skips hart entered steady sound level e =
      let cause = 8 + hart.csrf.privillege in
      let small : cause < 2 ^ 63 = omega (arith, sound.level) in
      let t = trap_lem enc standard cause hart sound small in
      let (at, whole, again, gprf, csrf) = raised_by hart cause entered steady sound small e in
      let mtvec = hart.csrf.value RegisterName.mtvec in
      let entry = trap_entry mtvec cause in
      let counter : read_register Gprf.pc entered ≡ entry =
        ap (λ cells. Gprf.read Gprf.pc cells) gprf ∙ t.5 in
      let block : IsFinished (load_instr platform) entry (entered.bb_cache.bbs entered.current.0) =
        subst (λ pc. IsFinished (load_instr platform) pc (entered.bb_cache.bbs entered.current.0))
          t.5 whole in
      (
        called hart entered level e,
        ap (λ (c : Csrf). c.privillege) csrf ∙ t.4,
        ap (λ (c : Csrf). c.value RegisterName.mcause) csrf ∙ t.1,
        counter,
        block,
        ap (λ (i : ℕ). (entered.current.0, suc i)) at,
        skipped entry (advance entered) again
            (rw counter (entry-lt mtvec cause (sound.words RegisterName.mtvec)))
            (λ one. entry-ne_one mtvec cause (sym counter ∙ one)) (rw at refl) block,
      )
