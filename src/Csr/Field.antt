-- ===== src/Csr/Field.antt =====
-- include/besm-666/exec/csr.hpp: a field of a register, and a register made of fields. A function
-- takes the raw register that the object refers to and gives the new one back.
use besm.Prelude.{ℕ, Bool, true, false, List, [], ◌∷◌, if◌then◌else◌}
use besm.BitMagic.{extract_masked, insert_masked}

pub data FieldSpec : Type 0 where
  wpri wlrl warl unchecked : FieldSpec

-- The template parameters of `CSRField`.
pub record Field : Type 0 where
  pub mask : ℕ
  pub spec : FieldSpec
  pub validator : ℕ → Bool
  pub reset_value : ℕ

-- `CSRField::get`
unfoldable pub get_with : FieldSpec → ℕ → ℕ → ℕ
get_with FieldSpec.wpri mask raw = 0
get_with _ mask raw = extract_masked 64 mask raw

unfoldable pub get : Field → ℕ → ℕ
unfolding get_with
get field raw = get_with field.spec field.mask raw

-- `CSRField::set`: whether the value was taken, and the register.
unfoldable pub set_with : FieldSpec → Field → ℕ → ℕ → Bool × ℕ
set_with FieldSpec.wlrl field value raw =
    if field.validator value then (true, insert_masked 64 field.mask value raw) else (false, raw)
set_with FieldSpec.wpri field value raw = (true, raw)
set_with FieldSpec.warl field value raw =
    if field.validator value then (true, insert_masked 64 field.mask value raw) else (true, raw)
set_with FieldSpec.unchecked field value raw = (true, insert_masked 64 field.mask value raw)

unfoldable pub set : Field → ℕ → ℕ → Bool × ℕ
unfolding set_with
set field value raw = set_with field.spec field value raw

-- `CSRField::extract`
unfoldable pub extract : Field → ℕ → ℕ → Bool × ℕ
unfolding set
extract field register_value raw = set field (extract_masked 64 field.mask register_value) raw

-- `CSRField::reset`
unfoldable pub reset : Field → ℕ → ℕ
reset field raw = extract_masked 64 field.mask field.reset_value

-- `CSRStructureUnroller::extract`: the first refusal stops the rest.
unfoldable pub extract_all : List Field → ℕ → ℕ → Bool × ℕ
extract_all [] value raw = (true, raw)
extract_all (field ∷ others) value raw =
    let (taken, next) = extract field value raw in
    let rest = extract_all others value next in if taken then rest else (false, next)

-- `CSRStructureUnroller::reset`
unfoldable pub reset_all : List Field → ℕ → ℕ
unfolding reset
reset_all [] raw = raw
reset_all (field ∷ others) raw = reset_all others (reset field raw)

-- `CSRStructure::write`; no register overrides `onUpdate`.
unfoldable pub write : List Field → ℕ → ℕ → Bool × ℕ
unfolding extract_all
write fields value raw = extract_all fields value raw
