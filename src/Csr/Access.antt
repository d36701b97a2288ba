-- ===== src/Csr/Access.antt =====
-- Which registers a program can write and read, and what an access leaves in the file.
use besm.Prelude.{
  ℕ, ◌%◌, ◌^◌, ◌<◌, ◌==◌, not, ◌||◌, ==_iff, Bool, true, false, List, [], ◌∷◌, Option, none, some,
  Bool-cases, inl, inr, if◌then◌else◌, ◌≡◌, ◌⊎◌, refl, sym, ap, ◌∙◌, ◌-◌, bit_or, bit_and, arith,
}
use besm.Prelude.Bits.{bit_or-lt, bit_and-lt}
use besm.BitMagic.{complement}
use besm.Csr.Field
use besm.Csr.Registers.{Encoding, IsStandard, RegisterName, register_id, fields_of}
use besm.Csr.File.{
  Csrf, same_register, find, put, fit_privillege, register_read_only, update_register, update,
  write, set_bits, clear_bits,
}
use besm.Csr.Mstatus.{mstatus_written, extract_all-mstatus}
use besm.Csr.Writes.{mtvec_written, extract_all-mepc, extract_all-mcause, extract_all-mtvec}

-- What the constructor puts in the map.
abbrev pub known_registers : List (ℕ × RegisterName)
known_registers =
    (0x342, RegisterName.mcause)
    ∷ (0x305, RegisterName.mtvec)
    ∷ (0x341, RegisterName.mepc)
    ∷ (0x300, RegisterName.mstatus)
    ∷ (0xF14, RegisterName.mhartid)
    ∷ []

-- The file as the constructor and every later access leaves it.
pub record IsReady (file : Csrf) : Type 0 where
  pub registers : file.registers ≡ known_registers
  pub words : (name : RegisterName) → file.value name < 2 ^ 64

-- The register that an id names, if it can be written.
abbrev pub writable : ℕ → Option RegisterName
writable id =
    if id == 0x300
    then some RegisterName.mstatus
    else if id == 0x305
    then some RegisterName.mtvec
    else if id == 0x341
    then some RegisterName.mepc
    else if id == 0x342
    then some RegisterName.mcause
    else none

-- What a write of `value` leaves in the register.
abbrev pub written : RegisterName → ℕ → ℕ → ℕ
written RegisterName.mstatus value old = mstatus_written value old
written RegisterName.mtvec value old = mtvec_written value old
written RegisterName.mepc value old = if value % 4 == 0 then value else old
written RegisterName.mcause value old = value
written RegisterName.mhartid value old = value % 4

pub swapped {ℓ} :
    {A : Type ℓ} (b : Bool) (x y : A) → (if not b || false then x else y) ≡ (if b then y else x)
swapped true x y = refl
swapped false x y = refl

pub same_either {ℓ} : {A : Type ℓ} (b : Bool) (x : A) → (if b then x else x) ≡ x
same_either true x = refl
same_either false x = refl

refused {ℓ} : {A : Type ℓ} (b : Bool) (x y : A) → (if not b || true then x else y) ≡ x
refused true x y = refl
refused false x y = refl

pub three_first : (p : ℕ) → (3 == p) ≡ (p == 3)
three_first p = ground arith

-- Every id is that of a register or of none.
pub named :
    (id : ℕ)
    → ((name : RegisterName) × (id ≡ register_id name))
      ⊎ ((find id known_registers ≡ none) × (writable id ≡ none) × ((id == 0xF14) ≡ false))
unfolding find register_id
named id = elim (Bool-cases (id == 0x300)) [
  | inl e ↦ inl (RegisterName.mstatus, (==_iff id 0x300).0 e)
  | inr a ↦ elim (Bool-cases (id == 0x305)) [
    | inl e ↦ inl (RegisterName.mtvec, (==_iff id 0x305).0 e)
    | inr b ↦ elim (Bool-cases (id == 0x341)) [
      | inl e ↦ inl (RegisterName.mepc, (==_iff id 0x341).0 e)
      | inr c ↦ elim (Bool-cases (id == 0x342)) [
        | inl e ↦ inl (RegisterName.mcause, (==_iff id 0x342).0 e)
        | inr d ↦ elim (Bool-cases (id == 0xF14)) [
          | inl e ↦ inl (RegisterName.mhartid, (==_iff id 0xF14).0 e)
          | inr f ↦ inr (ground arith, ground arith, f)
        ]
      ]
    ]
  ]
]

-- What every kind of write does, by the id that is asked for.
abbrev pub outcome : (ℕ → ℕ) → Csrf → Option RegisterName → Option ℕ × Csrf
outcome change file none = (none, file)
outcome change file (some name) = (
  some (file.value name),
  put name (written name (change (file.value name)) (file.value name)) file,
)

abbrev pub allowed : ℕ → (ℕ → ℕ) → Csrf → Option ℕ × Csrf
allowed id change file =
    if file.privillege == 3 then outcome change file (writable id) else (none, file)

module _ (enc : Encoding) (standard : IsStandard enc) where
  update_one :
      (id : ℕ) (name : RegisterName) (change : ℕ → ℕ) (file : Csrf)
      → find id file.registers ≡ some name
      → register_read_only id ≡ false
      → fit_privillege id file ≡ (file.privillege == 3)
      → Field.write (fields_of enc name) (change (file.value name)) (file.value name)
        ≡ (true, written name (change (file.value name)) (file.value name))
      → update enc id change file ≡ (
          if file.privillege == 3
          then (
            some (file.value name),
            put name (written name (change (file.value name)) (file.value name)) file,
          )
          else (none, file))
  unfolding update update_register put
  update_one id name change file found writes fits taken =
      rw (fits, writes, found, taken) (swapped (file.privillege == 3) _ _)

  -- Each of the writable registers takes what is written.
  taken_by :
      (name : RegisterName) (value old : ℕ)
      → same_register name RegisterName.mhartid ≡ false
      → value < 2 ^ 64
      → old < 2 ^ 64
      → Field.write (fields_of enc name) value old ≡ (true, written name value old)
  unfolding Field.write same_register
  taken_by RegisterName.mstatus value old n v h = extract_all-mstatus enc standard value old v h
  taken_by RegisterName.mtvec value old n v h = extract_all-mtvec enc value old v h
  taken_by RegisterName.mepc value old n v h = extract_all-mepc enc value old v h
  taken_by RegisterName.mcause value old n v h = extract_all-mcause enc value old v h
  taken_by RegisterName.mhartid value old n v h = cc

  module _ (change : ℕ → ℕ) (file : Csrf) (ready : IsReady file)
      (bounded : (old : ℕ) → old < 2 ^ 64 → change old < 2 ^ 64) where
    taken_known :
        (name : RegisterName)
        → same_register name RegisterName.mhartid ≡ false
        → Field.write (fields_of enc name) (change (file.value name)) (file.value name)
          ≡ (true, written name (change (file.value name)) (file.value name))
    taken_known name n = taken_by name _ _ n (bounded _ (ready.words name)) (ready.words name)

    known_at : (id : ℕ) → find id file.registers ≡ find id known_registers
    known_at id = ap (find id) ready.registers

    update_known :
        (name : RegisterName)
        → update enc (register_id name) change file ≡ allowed (register_id name) change file
    unfolding register_id find register_read_only fit_privillege same_register
    update_known RegisterName.mstatus =
        update_one 0x300 RegisterName.mstatus change file (known_at 0x300) refl (three_first _)
          (taken_known RegisterName.mstatus refl)
    update_known RegisterName.mtvec =
        update_one 0x305 RegisterName.mtvec change file (known_at 0x305) refl (three_first _)
          (taken_known RegisterName.mtvec refl)
    update_known RegisterName.mepc =
        update_one 0x341 RegisterName.mepc change file (known_at 0x341) refl (three_first _)
          (taken_known RegisterName.mepc refl)
    update_known RegisterName.mcause =
        update_one 0x342 RegisterName.mcause change file (known_at 0x342) refl (three_first _)
          (taken_known RegisterName.mcause refl)
    update_known RegisterName.mhartid =
        unfold update in
        refused (3 == file.privillege) _ _ ∙ sym (same_either (file.privillege == 3) _)

    update_unknown :
        (id : ℕ) → find id known_registers ≡ none → update enc id change file ≡ (none, file)
    unfolding update
    update_unknown id h = rw (known_at id, h) (same_either _ _)

    pub update_lem : (id : ℕ) → update enc id change file ≡ allowed id change file
    update_lem id = elim (named id) [
      | inl (name, e) ↦ rw e (update_known name)
      | inr (absent, e, f) ↦ rw (e, update_unknown id absent, same_either)
    ]

  -- The three writers of a ready file: in machine mode the four writable registers take the value
  -- under the rules of their fields and their old value comes back, every other id is refused, and
  -- outside machine mode nothing is written.
  pub writers_lem :
      (id value : ℕ) (file : Csrf)
      → IsReady file
      → value < 2 ^ 64
      → (write enc id value file ≡ allowed id (λ old. value) file)
        × (set_bits enc id value file ≡ allowed id (λ old. bit_or old value) file)
        × (clear_bits enc id value file ≡ allowed id (λ old. bit_and old (2 ^ 64 - 1 - value)) file)
  unfolding write set_bits clear_bits complement
  writers_lem id value file ready v = (
    update_lem (λ old. value) file ready (λ old h. v) id,
    update_lem (λ old. bit_or old value) file ready (λ old h. bit_or-lt 64 old value h v) id,
    update_lem (λ old. bit_and old (2 ^ 64 - 1 - value)) file ready
        (λ old h. bit_and-lt 64 old _ h (omega arith)) id,
  )
