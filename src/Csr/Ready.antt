-- ===== src/Csr/Ready.antt =====
-- The words of the registers stay words, from the constructor on.
use besm.Prelude.{
  ℕ, not, ◌==◌, Bool, true, false, Option, none, some, inl, inr, if◌then◌else◌, ◌≡◌, refl, sym, ap,
  ◌∙◌, arith,
}
use besm.BitMagic.{extract_masked}
use besm.Csr.Registers.{Encoding, IsStandard, RegisterName, register_id}
use besm.Csr.File.{Csrf, find, fit_privillege, read, new}
use besm.Csr.Access.{IsReady, writable, named, same_either, three_first}

module _ (enc : Encoding) (standard : IsStandard enc) where
  -- The constructor makes a ready file in machine mode in which every register reads as zero,
  -- whatever the registers held before.
  pub new-IsReady :
      (found : RegisterName → ℕ)
      → IsReady (new enc found)
        × ((new enc found).privillege ≡ 3)
        × ((name : RegisterName) → (new enc found).value name ≡ 0)
  unfolding new extract_masked
  new-IsReady found =
      (record { registers = refl; words = λ name. rw (zeros name) (omega arith) }, refl, zeros)
    where
      zeros : (name : RegisterName) → (new enc found).value name ≡ 0
      zeros RegisterName.mhartid = refl
      zeros RegisterName.mepc = refl
      zeros RegisterName.mtvec = refl
      zeros RegisterName.mcause = refl
      zeros RegisterName.mstatus = rw standard.mpp

-- The register that an id names for a read.
abbrev pub readable : ℕ → Option RegisterName
readable id = if id == 0xF14 then some RegisterName.mhartid else writable id

abbrev pub read_outcome : Csrf → Option RegisterName → Option ℕ
read_outcome file none = none
read_outcome file (some name) = some (file.value name)

read_found :
    (id : ℕ) (name : RegisterName) (file : Csrf)
    → find id file.registers ≡ some name
    → fit_privillege id file ≡ (3 == file.privillege)
    → read id file ≡ (if file.privillege == 3 then some (file.value name) else none)
unfolding read
read_found id name file found fits =
    rw (fits, found, three_first file.privillege) (negated (file.privillege == 3) _)
  where
    negated : (b : Bool) (x : Option ℕ) → (if not b then none else x) ≡ (if b then x else none)
    negated true x = refl
    negated false x = refl

read_missing : (id : ℕ) (file : Csrf) → find id file.registers ≡ none → read id file ≡ none
unfolding read
read_missing id file absent = rw absent (same_either _ _)

read_known :
    (name : RegisterName) (file : Csrf)
    → IsReady file
    → read (register_id name) file
      ≡ (if file.privillege == 3 then read_outcome file (readable (register_id name)) else none)
unfolding register_id find fit_privillege
read_known RegisterName.mhartid file ready =
    read_found 0xF14 RegisterName.mhartid file (ap (find 0xF14) ready.registers) refl
read_known RegisterName.mstatus file ready =
    read_found 0x300 RegisterName.mstatus file (ap (find 0x300) ready.registers) refl
read_known RegisterName.mtvec file ready =
    read_found 0x305 RegisterName.mtvec file (ap (find 0x305) ready.registers) refl
read_known RegisterName.mepc file ready =
    read_found 0x341 RegisterName.mepc file (ap (find 0x341) ready.registers) refl
read_known RegisterName.mcause file ready =
    read_found 0x342 RegisterName.mcause file (ap (find 0x342) ready.registers) refl

-- A read in machine mode gives the word of a register that is there, the read-only one too; in
-- any other mode every read is refused.
pub read_lem :
    (id : ℕ) (file : Csrf)
    → IsReady file
    → read id file ≡ (if file.privillege == 3 then read_outcome file (readable id) else none)
read_lem id file ready = elim (named id) [
  | inl (name, e) ↦ rw e (read_known name file ready)
  | inr (absent, e, f) ↦
      rw (e, f)
        (read_missing id file (ap (find id) ready.registers ∙ absent)
          ∙ sym (same_either (file.privillege == 3) none))
]
