-- ===== src/Hart/Trap.antt =====
-- What an exception saves and where it goes, and that MRET undoes it.
use besm.Prelude.{ℕ, ◌/◌, ◌%◌, ◌^◌, ◌<◌, ◌≡◌, ◌∙◌, arith}
use besm.Csr.File.{put}
use besm.Csr.Registers.{Encoding, IsStandard, RegisterName}
use besm.BitMagic.{insert_masked, extract_masked}
use besm.BitMagic.Runs.{insert_run, extract_run}
use besm.Csr.Words.{placed}
use besm.Hart.{Hart, set_field, get_field}
use besm.Hart.System.{save_status}

-- The words of mstatus while an exception is handled, and after the return.
abbrev pub trapped_status : ℕ → ℕ → ℕ
trapped_status privillege raw =
    placed 2 11 privillege (placed 1 3 0 (placed 1 7 (raw / 2 ^ 3 % 2) raw))

abbrev pub resumed_status : ℕ → ℕ
resumed_status raw = placed 2 11 0 (placed 1 7 1 raw)

trapped_bits :
    (p raw : ℕ)
    → p < 4
    → raw < 2 ^ 64
    → let t = trapped_status p raw in
      (t < 2 ^ 64) × (t / 2 ^ 3 % 2 ≡ 0) × (t / 2 ^ 7 % 2 ≡ raw / 2 ^ 3 % 2) × (t / 2 ^ 11 % 4 ≡ p)
trapped_bits p raw h r = (omega arith, omega arith, omega arith, omega arith)

resumed_bits :
    (p raw : ℕ)
    → p < 4
    → raw < 2 ^ 64
    → placed 2 11 0 (placed 1 7 1 (placed 1 3 (raw / 2 ^ 3 % 2) (trapped_status p raw)))
      ≡ resumed_status raw
resumed_bits p raw h r = omega arith

third-lt : (v t : ℕ) → t < 2 ^ 64 → placed 1 3 v t < 2 ^ 64
third-lt v t h = omega arith

seventh-lt : (v t : ℕ) → t < 2 ^ 64 → placed 1 7 v t < 2 ^ 64
seventh-lt v t h = omega arith

cause_bits : (id raw : ℕ) → id < 2 ^ 63 → raw < 2 ^ 64 → placed 63 0 id (placed 1 63 0 raw) ≡ id
cause_bits id raw h r = omega arith

sixty_third-lt : (raw : ℕ) → raw < 2 ^ 64 → placed 1 63 0 raw < 2 ^ 64
sixty_third-lt raw h = omega arith

module _ (enc : Encoding) (standard : IsStandard enc) where
  -- What `trap` and MRET do to the word of mstatus.
  pub trapped_word :
      (p raw : ℕ)
      → p < 4
      → raw < 2 ^ 64
      → insert_masked 64 enc.mstatus_mpp p (
          insert_masked 64 enc.mstatus_mie 0
            (insert_masked 64 enc.mstatus_mpie (extract_masked 64 enc.mstatus_mie raw) raw))
        ≡ trapped_status p raw
  trapped_word p raw h r =
      let one = raw / 2 ^ 3 % 2 in
      let first : placed 1 7 one raw < 2 ^ 64 = omega arith in
      let second : placed 1 3 0 (placed 1 7 one raw) < 2 ^ 64 = omega arith in
      rw (
        standard.mpp,
        standard.mie,
        standard.mpie,
        extract_run 1 3 raw (omega arith) r,
        insert_run 1 7 one raw (omega arith) (omega arith) r,
        insert_run 1 3 0 (placed 1 7 one raw) (omega arith) (omega arith) first,
        insert_run 2 11 p (placed 1 3 0 (placed 1 7 one raw)) (omega arith) (omega arith) second,
      )

  pub resumed_word :
      (p raw : ℕ)
      → p < 4
      → raw < 2 ^ 64
      → let t = trapped_status p raw in
        insert_masked 64 enc.mstatus_mpp 0 (
          insert_masked 64 enc.mstatus_mpie 1
            (insert_masked 64 enc.mstatus_mie (extract_masked 64 enc.mstatus_mpie t) t))
        ≡ resumed_status raw
  resumed_word p raw h r =
      let t = trapped_status p raw in
      let bits = trapped_bits p raw h r in
      let b = raw / 2 ^ 3 % 2 in
      let first : placed 1 3 b t < 2 ^ 64 = third-lt b t bits.0 in
      let second : placed 1 7 1 (placed 1 3 b t) < 2 ^ 64 = seventh-lt 1 _ first in
      rw
        (
          standard.mpp,
          standard.mie,
          standard.mpie,
          extract_run 1 7 t (omega arith) bits.0,
          bits.2,
          insert_run 1 3 b t (omega arith) (omega arith) bits.0,
          insert_run 1 7 1 (placed 1 3 b t) (omega arith) (omega arith) first,
          insert_run 2 11 0 (placed 1 7 1 (placed 1 3 b t)) (omega arith) (omega arith) second,
        )
        (resumed_bits p raw h r)

  pub level_word :
      (p raw : ℕ)
      → p < 4
      → raw < 2 ^ 64
      → extract_masked 64 enc.mstatus_mpp (trapped_status p raw) ≡ p
  level_word p raw h r =
      let bits = trapped_bits p raw h r in
      rw (standard.mpp) (extract_run 2 11 (trapped_status p raw) (omega arith) bits.0 ∙ bits.3)

module _ {M : Type 0} (enc : Encoding) (standard : IsStandard enc) where
  -- The six writes of `save_status`, word by word.
  pub save_status-mstatus :
      (id : ℕ) (hart : Hart M)
      → hart.csrf.privillege < 4
      → hart.csrf.value RegisterName.mstatus < 2 ^ 64
      → (save_status enc id hart).csrf.value RegisterName.mstatus
        ≡ trapped_status hart.csrf.privillege (hart.csrf.value RegisterName.mstatus)
  unfolding save_status set_field get_field put
  save_status-mstatus id hart p r =
      trapped_word enc standard hart.csrf.privillege (hart.csrf.value RegisterName.mstatus) p r

  pub save_status-mcause :
      (id : ℕ) (hart : Hart M)
      → id < 2 ^ 63
      → hart.csrf.value RegisterName.mcause < 2 ^ 64
      → (save_status enc id hart).csrf.value RegisterName.mcause ≡ id
  unfolding save_status set_field get_field put
  save_status-mcause id hart i c =
      let raw = hart.csrf.value RegisterName.mcause in
      rw
        (
          insert_run 1 63 0 raw (omega arith) (omega arith) c,
          insert_run 63 0 id (placed 1 63 0 raw) (omega arith) (omega arith) (sixty_third-lt raw c),
        )
        (cause_bits id raw i c)
