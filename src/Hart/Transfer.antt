-- ===== src/Hart/Transfer.antt =====
-- src/sim/hart.cpp: the loads and the stores.
use besm.Prelude.{ℕ, ◌%◌, ◌^◌, ◌*◌, none, some}
use besm.BitMagic.{sign_extend}
use besm.Hart.{Hart, Step, Platform, next, raised, rs1, rs2, immidiate, next_pc, write_back}
use besm.Hart.Signed.{widen}
use besm.Hart.Arithmetic.{add}

module _ {M : Type 0} (platform : Platform M) where
  abbrev pub address : Hart M → ℕ
  address hart = add (rs1 hart) (immidiate hart)

  -- A load of `bytes` bytes, whose value is widened by `extend` and written back.
  unfoldable pub load_by : ℕ → (ℕ → ℕ) → Hart M → Step M
  unfolding write_back sign_extend
  load_by bytes extend hart = elim (platform.load bytes (address hart) hart.memory) [
    | none ↦ raised
    | some (value, memory) ↦ write_back (extend value) (record hart { memory = memory })
  ]

  -- A store of the low bytes of rs2.
  unfoldable pub store_by : ℕ → Hart M → Step M
  unfolding next_pc sign_extend
  store_by bytes hart =
      elim (platform.store bytes (address hart) (rs2 hart % 2 ^ (8 * bytes)) hart.memory) [
        | none ↦ raised
        | some memory ↦ next (next_pc (record hart { memory = memory }))
      ]

  unfoldable pub exec_lb : Hart M → Step M
  unfolding load_by widen
  exec_lb hart = load_by 1 (widen 8) hart

  unfoldable pub exec_lh : Hart M → Step M
  unfolding load_by widen
  exec_lh hart = load_by 2 (widen 16) hart

  unfoldable pub exec_lw : Hart M → Step M
  unfolding load_by widen
  exec_lw hart = load_by 4 (widen 32) hart

  unfoldable pub exec_ld : Hart M → Step M
  unfolding load_by
  exec_ld hart = load_by 8 (λ value. value) hart

  unfoldable pub exec_lbu : Hart M → Step M
  unfolding load_by
  exec_lbu hart = load_by 1 (λ value. value) hart

  unfoldable pub exec_lhu : Hart M → Step M
  unfolding load_by
  exec_lhu hart = load_by 2 (λ value. value) hart

  unfoldable pub exec_lwu : Hart M → Step M
  unfolding load_by
  exec_lwu hart = load_by 4 (λ value. value) hart

  unfoldable pub exec_sb : Hart M → Step M
  unfolding store_by
  exec_sb hart = store_by 1 hart

  unfoldable pub exec_sh : Hart M → Step M
  unfolding store_by
  exec_sh hart = store_by 2 hart

  unfoldable pub exec_sw : Hart M → Step M
  unfolding store_by
  exec_sw hart = store_by 4 hart

  unfoldable pub exec_sd : Hart M → Step M
  unfolding store_by
  exec_sd hart = store_by 8 hart
