-- ===== src/Csr/File.antt =====
-- src/exec/csrf.cpp: the register file. `registers` is the map from ids to registers, and
-- `value` the raw word of each register object.
use besm.Prelude.{
  ℕ, ◌%◌, ◌^◌, ◌==◌, Bool, true, false, not, ◌||◌, List, [], ◌∷◌, Option, none, some, bit_or,
  bit_and, if◌then◌else◌,
}
use besm.BitMagic.{extract_bits, complement}
use besm.Csr.Field
use besm.Csr.Registers.{Encoding, RegisterName, register_id, fields_of}

abbrev pub privillege_machine : ℕ
privillege_machine = 3

abbrev pub privillege_supervisor : ℕ
privillege_supervisor = 1

abbrev pub privillege_user : ℕ
privillege_user = 0

pub record Csrf : Type 0 where
  pub privillege : ℕ
  pub registers : List (ℕ × RegisterName)
  pub value : RegisterName → ℕ

unfoldable pub same_register : RegisterName → RegisterName → Bool
same_register RegisterName.mhartid RegisterName.mhartid = true
same_register RegisterName.mstatus RegisterName.mstatus = true
same_register RegisterName.mepc RegisterName.mepc = true
same_register RegisterName.mtvec RegisterName.mtvec = true
same_register RegisterName.mcause RegisterName.mcause = true
same_register _ _ = false

-- The word of one register object is replaced.
unfoldable pub put : RegisterName → ℕ → Csrf → Csrf
unfolding same_register
put name raw file = record file {
  value = λ other. if same_register other name then raw else file.value other;
}

unfoldable pub find : ℕ → List (ℕ × RegisterName) → Option RegisterName
find id [] = none
find id ((key, name) ∷ rest) = if key == id then some name else find id rest

-- `CSRF::addRegister`: `insert` leaves a key alone that is there.
unfoldable pub add_register : RegisterName → List (ℕ × RegisterName) → List (ℕ × RegisterName)
unfolding find register_id
add_register name registers = elim (find (register_id name) registers) [
  | none ↦ (register_id name, name) ∷ registers
  | some old ↦ registers
]

-- `CSRF()`: each register registers itself and resets its fields; the words held anything before.
unfoldable pub new : Encoding → (RegisterName → ℕ) → Csrf
unfolding add_register fields_of Field.reset_all
new enc found = record {
  privillege = privillege_machine;
  registers = add_register RegisterName.mcause (
      add_register RegisterName.mtvec (
        add_register RegisterName.mepc
          (add_register RegisterName.mstatus (add_register RegisterName.mhartid []))));
  value = λ name. Field.reset_all (fields_of enc name) (found name);
}

unfoldable pub register_privillege : ℕ → ℕ
unfolding extract_bits
register_privillege id = extract_bits 32 2 8 (id % 2 ^ 32)

unfoldable pub register_read_only : ℕ → Bool
unfolding extract_bits
register_read_only id = extract_bits 32 2 10 (id % 2 ^ 32) == 0b11

unfoldable pub fit_privillege : ℕ → Csrf → Bool
unfolding register_privillege
fit_privillege id file = register_privillege id == file.privillege

-- `none` is the `false` of the source's variant.
unfoldable pub read : ℕ → Csrf → Option ℕ
unfolding fit_privillege find
read id file =
    if not (fit_privillege id file)
    then none
    else elim (find id file.registers) [ none ↦ none | some name ↦ some (file.value name) ]

module _ (enc : Encoding) where
  -- The second half of the three writers: the register is written by a value made of its old one.
  unfoldable pub update_register : (ℕ → ℕ) → RegisterName → Csrf → Option ℕ × Csrf
  unfolding put fields_of Field.write
  update_register change name file =
      let old_value = file.value name in
      let (taken, raw) = Field.write (fields_of enc name) (change old_value) old_value in
      (if taken then some old_value else none, put name raw file)

  -- Their first half: the checks and the search.
  unfoldable pub update : ℕ → (ℕ → ℕ) → Csrf → Option ℕ × Csrf
  unfolding fit_privillege register_read_only find update_register
  update id change file =
      if not (fit_privillege id file) || register_read_only id
      then (none, file)
      else elim (find id file.registers) [
        | none ↦ (none, file)
        | some name ↦ update_register change name file
      ]

  unfoldable pub write : ℕ → ℕ → Csrf → Option ℕ × Csrf
  unfolding update
  write id value file = update id (λ old. value) file

  unfoldable pub set_bits : ℕ → ℕ → Csrf → Option ℕ × Csrf
  unfolding update
  set_bits id mask file = update id (λ old. bit_or old mask) file

  unfoldable pub clear_bits : ℕ → ℕ → Csrf → Option ℕ × Csrf
  unfolding update complement
  clear_bits id mask file = update id (λ old. bit_and old (complement 64 mask)) file
