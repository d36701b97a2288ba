-- ===== src/Hart/Return.antt =====
-- An exception as a whole, and the return from it.
use besm.Prelude.{
  ℕ, ◌+◌, ◌*◌, ◌/◌, ◌%◌, ◌^◌, ◌<◌, ◌==◌, ==_iff, Bool-cases, inl, inr, if◌then◌else◌, ◌≡◌, refl, ap,
  ◌∙◌, arith,
}
use besm.BitMagic.Runs.{insert_run, extract_run}
use besm.Gprf
use besm.Csr.File.{Csrf, put}
use besm.Csr.Registers.{Encoding, IsStandard, RegisterName}
use besm.Csr.Words.{placed}
use besm.Hart.{Hart, Platform, next, read_register, set_field, get_field}
use besm.Hart.System.{save_status, trap_target, trap, restore_status, return_to_mepc, exec_mret}
use besm.Hart.Trap.{
  trapped_status, resumed_status, resumed_word, save_status-mstatus, save_status-mcause, level_word,
}

-- Where an exception goes, on the word of mtvec: to the base, or with mode 1 to the entry of the
-- cause.
abbrev pub trap_entry : ℕ → ℕ → ℕ
trap_entry mtvec id = if mtvec % 4 == 1 then (mtvec / 4 + id) * 4 % 2 ^ 64 else mtvec / 4 * 4

entry :
    (raw id : ℕ)
    → raw < 2 ^ 64
    → (if raw / 2 ^ 0 % 2 ^ 2 == 1
        then (raw / 2 ^ 2 % 2 ^ 62 + id) % 2 ^ 64 * 4 % 2 ^ 64
        else raw / 2 ^ 2 % 2 ^ 62 * 4 % 2 ^ 64)
      ≡ trap_entry raw id
entry raw id r = ground arith

chosen : (a b : ℕ) → a % 4 ≡ 0 → (if a % 4 == 0 then a else b) ≡ a
chosen a b h = rw ((==_iff (a % 4) 0).1 h)

whole_value : (value : ℕ) → value < 2 ^ 64 → value / 2 ^ 0 % 2 ^ 64 ≡ value
whole_value value v = omega arith

whole_word : (value raw : ℕ) → value < 2 ^ 64 → raw < 2 ^ 64 → placed 64 0 value raw ≡ value
whole_word value raw v h = omega arith

module _ {M : Type 0} (enc : Encoding) (standard : IsStandard enc) where
  -- What the registers of a hart hold are words, and its level is one of the four that exist.
  pub record IsSound (hart : Hart M) : Type 0 where
    pub words : (name : RegisterName) → hart.csrf.value name < 2 ^ 64
    pub level : hart.csrf.privillege < 4
    pub counter : read_register Gprf.pc hart < 2 ^ 64

  trap_target_lem :
      (id : ℕ) (hart : Hart M)
      → hart.csrf.value RegisterName.mtvec < 2 ^ 64
      → trap_target enc id hart ≡ trap_entry (hart.csrf.value RegisterName.mtvec) id
  unfolding trap_target get_field
  trap_target_lem id hart r =
      let raw = hart.csrf.value RegisterName.mtvec in
      rw (extract_run 2 0 raw (omega arith) r, extract_run 62 2 raw (omega arith) r)
        (entry raw id r)

  trap-mtvec :
      (id : ℕ) (hart : Hart M)
      → hart.csrf.value RegisterName.mtvec < 2 ^ 64
      → read_register Gprf.pc (trap enc id hart)
        ≡ trap_entry (hart.csrf.value RegisterName.mtvec) id
  unfolding trap trap_target save_status set_field get_field put Gprf.read Gprf.write
  trap-mtvec id hart r = trap_target_lem id (save_status enc id hart) r

  trap-mepc :
      (id : ℕ) (hart : Hart M)
      → read_register Gprf.pc hart < 2 ^ 64
      → hart.csrf.value RegisterName.mepc < 2 ^ 64
      → (trap enc id hart).csrf.value RegisterName.mepc ≡ (
          if read_register Gprf.pc hart % 4 == 0
          then read_register Gprf.pc hart
          else hart.csrf.value RegisterName.mepc)
  unfolding trap save_status set_field get_field put Gprf.read
  trap-mepc id hart h r = elim (Bool-cases (read_register Gprf.pc hart % 4 == 0)) [
    | inl aligned ↦
        rw aligned
          (insert_run 64 0 (read_register Gprf.pc hart) _ (omega arith) h r ∙ whole_word _ _ h r)
    | inr odd ↦ rw odd
  ]

  -- mstatus, mcause and the others after it.
  trap-saved :
      (id : ℕ) (hart : Hart M)
      → ((trap enc id hart).csrf.value RegisterName.mstatus
          ≡ (save_status enc id hart).csrf.value RegisterName.mstatus)
        × ((trap enc id hart).csrf.value RegisterName.mcause
            ≡ (save_status enc id hart).csrf.value RegisterName.mcause)
        × ((trap enc id hart).csrf.value RegisterName.mtvec ≡ hart.csrf.value RegisterName.mtvec)
        × ((trap enc id hart).csrf.privillege ≡ 3)
  unfolding trap save_status set_field put
  trap-saved id hart = (refl, refl, refl, refl)

  -- An exception at a sound hart: mstatus keeps the level and the interrupt bit and clears the
  -- latter, mcause holds the cause, mepc the program counter (or what it held, if that is no
  -- multiple of four), mtvec is as it was, the level is machine, and the program counter is the
  -- entry that mtvec names.
  pub trap_lem :
      (id : ℕ) (hart : Hart M)
      → IsSound hart
      → id < 2 ^ 63
      → let trapped = trap enc id hart in
        let pc = read_register Gprf.pc hart in
        (trapped.csrf.value RegisterName.mstatus
          ≡ trapped_status hart.csrf.privillege (hart.csrf.value RegisterName.mstatus))
        × (trapped.csrf.value RegisterName.mcause ≡ id)
        × (trapped.csrf.value RegisterName.mepc
            ≡ (if pc % 4 == 0 then pc else hart.csrf.value RegisterName.mepc))
        × (trapped.csrf.value RegisterName.mtvec ≡ hart.csrf.value RegisterName.mtvec)
        × (trapped.csrf.privillege ≡ 3)
        × (read_register Gprf.pc trapped ≡ trap_entry (hart.csrf.value RegisterName.mtvec) id)
  trap_lem id hart sound i =
      let saved = trap-saved id hart in
      (
        saved.0
            ∙ save_status-mstatus enc standard id hart sound.level
                (sound.words RegisterName.mstatus),
        saved.1 ∙ save_status-mcause enc standard id hart i (sound.words RegisterName.mcause),
        trap-mepc id hart sound.counter (sound.words RegisterName.mepc),
        saved.2,
        saved.3,
        trap-mtvec id hart (sound.words RegisterName.mtvec),
      )

  restored :
      (p raw : ℕ) (hart : Hart M)
      → p < 4
      → raw < 2 ^ 64
      → hart.csrf.value RegisterName.mstatus ≡ trapped_status p raw
      → ((restore_status enc hart).csrf.value RegisterName.mstatus ≡ resumed_status raw)
        × ((restore_status enc hart).csrf.privillege ≡ p)
        × ((restore_status enc hart).csrf.value RegisterName.mepc
            ≡ hart.csrf.value RegisterName.mepc)
  unfolding restore_status set_field get_field put
  restored p raw hart h r e =
      (rw e (resumed_word enc standard p raw h r), rw e (level_word enc standard p raw h r), refl)

  returned_to :
      (hart : Hart M) (epc : ℕ)
      → hart.csrf.value RegisterName.mepc ≡ epc
      → epc < 2 ^ 64
      → read_register Gprf.pc (return_to_mepc enc hart) ≡ epc
  unfolding return_to_mepc get_field Gprf.read Gprf.write
  returned_to hart epc e h = rw e (extract_run 64 0 epc (omega arith) h ∙ whole_value epc h)

  kept : (hart : Hart M) → (return_to_mepc enc hart).csrf ≡ hart.csrf
  unfolding return_to_mepc
  kept hart = refl

  in_machine :
      (platform : Platform M) (hart : Hart M)
      → hart.csrf.privillege ≡ 3
      → exec_mret platform enc hart ≡ next (return_to_mepc enc (restore_status enc hart))
  unfolding exec_mret
  in_machine platform hart e = rw e

  -- MRET at the end of a handler that leaves the control registers alone: the hart is back at the
  -- level and the address of the exception, with mstatus as it was but for MPIE set and MPP
  -- cleared. The address must be a multiple of four, which mepc keeps.
  pub trap-mret :
      (platform : Platform M) (id : ℕ) (hart handled : Hart M)
      → IsSound hart
      → id < 2 ^ 63
      → read_register Gprf.pc hart % 4 ≡ 0
      → handled.csrf ≡ (trap enc id hart).csrf
      → (resumed : Hart M) × (exec_mret platform enc handled ≡ next resumed)
        × (resumed.csrf.privillege ≡ hart.csrf.privillege)
        × (read_register Gprf.pc resumed ≡ read_register Gprf.pc hart)
        × (resumed.csrf.value RegisterName.mstatus
            ≡ resumed_status (hart.csrf.value RegisterName.mstatus))
  trap-mret platform id hart handled sound i aligned same =
      let t = trap_lem id hart sound i in
      let at = λ (name : RegisterName). ap (λ (c : Csrf). c.value name) same in
      let back =
        restored hart.csrf.privillege (hart.csrf.value RegisterName.mstatus) handled sound.level
          (sound.words RegisterName.mstatus) (at RegisterName.mstatus ∙ t.0) in
      let epc : handled.csrf.value RegisterName.mepc ≡ read_register Gprf.pc hart =
        at RegisterName.mepc ∙ t.2 ∙ chosen _ _ aligned in
      (
        return_to_mepc enc (restore_status enc handled),
        in_machine platform handled (ap (λ (c : Csrf). c.privillege) same ∙ t.4),
        ap (λ (c : Csrf). c.privillege) (kept (restore_status enc handled)) ∙ back.1,
        returned_to (restore_status enc handled) (read_register Gprf.pc hart) (back.2 ∙ epc)
            sound.counter,
        ap (λ (c : Csrf). c.value RegisterName.mstatus) (kept (restore_status enc handled))
            ∙ back.0,
      )
