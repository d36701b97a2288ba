-- ===== src/Csr/Registers.antt =====
-- include/besm-666/exec/csrs.hpp: the five registers and their fields. The masks of mstatus come
-- from the generated header encoding.out.h and are a parameter.
use besm.Prelude.{ℕ, ◌-◌, ◌/◌, ◌%◌, ◌^◌, ◌==◌, ◌≡◌, leb, Bool, true, List, [], ◌∷◌}
use besm.Csr.Field.{Field, FieldSpec}

-- `MSTATUS_*` of encoding.out.h.
pub record Encoding : Type 0 where
  pub mstatus_sie : ℕ
  pub mstatus_mie : ℕ
  pub mstatus_spie : ℕ
  pub mstatus_mpie : ℕ
  pub mstatus_spp : ℕ
  pub mstatus_mpp : ℕ

-- The layout of mstatus in the RISC-V privileged manual, which the header is generated from.
pub record IsStandard (enc : Encoding) : Type 0 where
  pub sie : enc.mstatus_sie ≡ 0x2
  pub mie : enc.mstatus_mie ≡ 0x8
  pub spie : enc.mstatus_spie ≡ 0x20
  pub mpie : enc.mstatus_mpie ≡ 0x80
  pub spp : enc.mstatus_spp ≡ 0x100
  pub mpp : enc.mstatus_mpp ≡ 0x1800

-- `CSRUncheckedField<Mask>`
abbrev pub unchecked_field : ℕ → Field
unchecked_field mask = record {
  mask = mask;
  spec = FieldSpec.unchecked;
  validator = λ v. true;
  reset_value = 0;
}

-- `CSRWARLField<Mask, Validator>`
abbrev pub warl_field : ℕ → (ℕ → Bool) → Field
warl_field mask validator = record {
  mask = mask;
  spec = FieldSpec.warl;
  validator = validator;
  reset_value = 0;
}

-- `MStatus`
abbrev pub mie_field : Encoding → Field
mie_field enc = unchecked_field enc.mstatus_mie

abbrev pub mpie_field : Encoding → Field
mpie_field enc = unchecked_field enc.mstatus_mpie

abbrev pub mpp_field : Encoding → Field
mpp_field enc = unchecked_field enc.mstatus_mpp

abbrev pub mstatus_fields : Encoding → List Field
mstatus_fields enc =
    unchecked_field enc.mstatus_sie
    ∷ mie_field enc
    ∷ unchecked_field enc.mstatus_spie
    ∷ mpie_field enc
    ∷ unchecked_field enc.mstatus_spp
    ∷ mpp_field enc
    ∷ []

-- `MEPC`, whose validator asks for a multiple of `IALIGN / 8`.
abbrev pub mepc_validator : ℕ → Bool
mepc_validator value = value % (32 / 8) == 0

abbrev pub mepc_field : Field
mepc_field = warl_field (2 ^ 64 - 1) mepc_validator

-- `MCause`
abbrev pub interrupt_field : Field
interrupt_field = unchecked_field (2 ^ 63)

abbrev pub exception_code_field : Field
exception_code_field = unchecked_field (2 ^ 63 - 1)

-- `MTVec`
abbrev pub mode_validator : ℕ → Bool
mode_validator mode = leb mode 1

abbrev pub base_validator : ℕ → Bool
base_validator base = base % 4 == 0

abbrev pub mode_field : Field
mode_field = warl_field 0b11 mode_validator

abbrev pub base_field : Field
base_field = warl_field (2 ^ 64 - 1 - 0b11) base_validator

-- `MHartID`
abbrev pub hart_id_field : Field
hart_id_field = unchecked_field 0b11

-- One name for each register of the file.
pub data RegisterName : Type 0 where
  mhartid mstatus mepc mtvec mcause : RegisterName

-- `ICSR::Id`
unfoldable pub register_id : RegisterName → ℕ
register_id RegisterName.mhartid = 0xF14
register_id RegisterName.mstatus = 0x300
register_id RegisterName.mepc = 0x341
register_id RegisterName.mtvec = 0x305
register_id RegisterName.mcause = 0x342

unfoldable pub fields_of : Encoding → RegisterName → List Field
fields_of enc RegisterName.mhartid = hart_id_field ∷ []
fields_of enc RegisterName.mstatus = mstatus_fields enc
fields_of enc RegisterName.mepc = mepc_field ∷ []
fields_of enc RegisterName.mtvec = mode_field ∷ base_field ∷ []
fields_of enc RegisterName.mcause = interrupt_field ∷ exception_code_field ∷ []
