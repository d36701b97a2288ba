-- ===== src/Csr/Writes.antt =====
-- A write of mepc, mcause and mtvec, whose fields check what they are given.
use besm.Prelude.{
  ℕ, ◌+◌, ◌*◌, ◌/◌, ◌%◌, ◌^◌, ◌<◌, ◌==◌, leb, true, [], ◌∷◌, if◌then◌else◌, ◌≡◌, refl, ap, ◌∙◌,
  arith,
}
use besm.Csr.Field.{extract_all}
use besm.Csr.Registers.{
  Encoding, mepc_field, mode_field, base_field, interrupt_field, exception_code_field,
  mepc_validator, mode_validator, base_validator, RegisterName, fields_of,
}
use besm.Csr.Words.{placed, taken, extract-unchecked, extract-warl}

whole_value : (value : ℕ) → value < 2 ^ 64 → value / 2 ^ 0 % 2 ^ 64 ≡ value
whole_value value v = omega arith

whole_word : (value raw : ℕ) → value < 2 ^ 64 → raw < 2 ^ 64 → placed 64 0 value raw ≡ value
whole_word value raw v h = omega arith

mepc_part :
    (value raw : ℕ)
    → value < 2 ^ 64
    → raw < 2 ^ 64
    → (if mepc_validator (value / 2 ^ 0 % 2 ^ 64)
        then placed 64 0 (value / 2 ^ 0 % 2 ^ 64) raw
        else raw)
      ≡ (if value % 4 == 0 then value else raw)
mepc_part value raw v h = rw (whole_value value v, whole_word value raw v h)

-- A write of mepc is dropped unless it is a multiple of four.
pub extract_all-mepc :
    (enc : Encoding) (value raw : ℕ)
    → value < 2 ^ 64
    → raw < 2 ^ 64
    → extract_all (fields_of enc RegisterName.mepc) value raw
      ≡ (true, if value % 4 == 0 then value else raw)
unfolding extract_all fields_of
extract_all-mepc enc value raw v h =
    taken mepc_field [] value raw
      (extract-warl 64 0 (omega arith) _ mepc_validator value raw refl v h)
    ∙ ap (λ (r : ℕ). (true, r)) (mepc_part value raw v h)

replaced :
    (value raw : ℕ)
    → value < 2 ^ 64
    → raw < 2 ^ 64
    → placed 63 0 (value / 2 ^ 0 % 2 ^ 63) (placed 1 63 (value / 2 ^ 63 % 2) raw) ≡ value
replaced value raw v h = omega arith

pub extract_all-mcause :
    (enc : Encoding) (value raw : ℕ)
    → value < 2 ^ 64
    → raw < 2 ^ 64
    → extract_all (fields_of enc RegisterName.mcause) value raw ≡ (true, value)
unfolding extract_all fields_of
extract_all-mcause enc value raw v h =
    taken interrupt_field (exception_code_field ∷ []) value raw
      (extract-unchecked 1 63 (omega arith) _ value raw refl v h)
    ∙ taken exception_code_field [] value (placed 1 63 (value / 2 ^ 63 % 2) raw)
        (extract-unchecked 63 0 (omega arith) _ value _ refl v (omega arith))
    ∙ ap (λ (r : ℕ). (true, r)) (replaced value raw v h)

-- A write of mtvec takes a mode of 0 or 1, and a base that is itself a multiple of four.
abbrev pub mtvec_written : ℕ → ℕ → ℕ
mtvec_written value raw =
    (if value / 4 % 4 == 0 then value / 4 else raw / 4) * 4
    + (if leb (value % 4) 1 then value % 4 else raw % 4)

mode_part : ℕ → ℕ → ℕ
mode_part value raw =
    if mode_validator (value / 2 ^ 0 % 2 ^ 2) then placed 2 0 (value / 2 ^ 0 % 2 ^ 2) raw else raw

mode_part_lem :
    (value raw : ℕ)
    → raw < 2 ^ 64
    → (mode_part value raw < 2 ^ 64)
      × (mode_part value raw / 4 ≡ raw / 4)
      × (mode_part value raw % 4 ≡ (if leb (value % 4) 1 then value % 4 else raw % 4))
unfolding mode_part
mode_part_lem value raw h = (ground arith, ground arith, ground arith)

base_part_lem :
    (value raw next : ℕ)
    → value < 2 ^ 64
    → next < 2 ^ 64
    → next / 4 ≡ raw / 4
    → (if base_validator (value / 2 ^ 2 % 2 ^ 62)
        then placed 62 2 (value / 2 ^ 2 % 2 ^ 62) next
        else next)
      ≡ (if value / 4 % 4 == 0 then value / 4 else raw / 4) * 4 + next % 4
base_part_lem value raw next v n e = ground arith

pub extract_all-mtvec :
    (enc : Encoding) (value raw : ℕ)
    → value < 2 ^ 64
    → raw < 2 ^ 64
    → extract_all (fields_of enc RegisterName.mtvec) value raw ≡ (true, mtvec_written value raw)
unfolding extract_all fields_of mode_part
extract_all-mtvec enc value raw v h =
    let m = mode_part_lem value raw h in
    taken mode_field (base_field ∷ []) value raw
      (extract-warl 2 0 (omega arith) _ mode_validator value raw refl v h)
    ∙ taken base_field [] value (mode_part value raw)
        (extract-warl 62 2 (omega arith) _ base_validator value _ refl v m.0)
    ∙ ap (λ (r : ℕ). (true, r))
        (base_part_lem value raw (mode_part value raw) v m.0 m.1
          ∙ ap (λ (x : ℕ). (if value / 4 % 4 == 0 then value / 4 else raw / 4) * 4 + x) m.2)
