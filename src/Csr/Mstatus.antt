-- ===== src/Csr/Mstatus.antt =====
-- A write of mstatus, field after field.
use besm.Prelude.{ℕ, ◌+◌, ◌*◌, ◌/◌, ◌%◌, ◌^◌, ◌<◌, true, [], ◌∷◌, ◌≡◌, ap, ◌∙◌, arith}
use besm.Csr.Field.{extract_all}
use besm.Csr.Registers.{
  Encoding, IsStandard, unchecked_field, mie_field, mpie_field, mpp_field, RegisterName, fields_of,
}
use besm.Csr.Words.{placed, taken, extract-unchecked}

-- A write of mstatus takes the bits of the six fields and keeps all others.
abbrev pub mstatus_written : ℕ → ℕ → ℕ
mstatus_written value raw =
    raw / 2 ^ 13 * 2 ^ 13
    + value / 2 ^ 11 % 4 * 2 ^ 11
    + raw / 2 ^ 9 % 4 * 2 ^ 9
    + value / 2 ^ 7 % 4 * 2 ^ 7
    + raw / 2 ^ 6 % 2 * 2 ^ 6
    + value / 2 ^ 5 % 2 * 2 ^ 5
    + raw / 2 ^ 4 % 2 * 2 ^ 4
    + value / 2 ^ 3 % 2 * 2 ^ 3
    + raw / 2 ^ 2 % 2 * 2 ^ 2
    + value / 2 % 2 * 2
    + raw % 2

-- Each of the six writes, in the order of the register's fields: what is below the field, the
-- rest of the word, and its range.
field_1 :
    (value raw : ℕ)
    → raw < 2 ^ 64
    → let next = placed 1 1 (value / 2 ^ 1 % 2 ^ 1) raw in
      (next % 4 ≡ value / 2 ^ 1 % 2 ^ 1 * 2 ^ 1 + raw % 2) × (next / 4 ≡ raw / 4) × (next < 2 ^ 64)
field_1 value raw h = (omega arith, omega arith, omega arith)

field_2 :
    (value raw r : ℕ)
    → r < 2 ^ 64
    → r / 4 ≡ raw / 4
    → let next = placed 1 3 (value / 2 ^ 3 % 2 ^ 1) r in
      (next % 16 ≡ value / 2 ^ 3 % 2 ^ 1 * 2 ^ 3 + raw / 4 % 2 * 4 + r % 4)
      × (next / 16 ≡ raw / 16)
      × (next < 2 ^ 64)
field_2 value raw r h e = (omega arith, omega arith, omega arith)

field_3 :
    (value raw r : ℕ)
    → r < 2 ^ 64
    → r / 16 ≡ raw / 16
    → let next = placed 1 5 (value / 2 ^ 5 % 2 ^ 1) r in
      (next % 64 ≡ value / 2 ^ 5 % 2 ^ 1 * 2 ^ 5 + raw / 16 % 2 * 16 + r % 16)
      × (next / 64 ≡ raw / 64)
      × (next < 2 ^ 64)
field_3 value raw r h e = (omega arith, omega arith, omega arith)

field_4 :
    (value raw r : ℕ)
    → r < 2 ^ 64
    → r / 64 ≡ raw / 64
    → let next = placed 1 7 (value / 2 ^ 7 % 2 ^ 1) r in
      (next % 256 ≡ value / 2 ^ 7 % 2 ^ 1 * 2 ^ 7 + raw / 64 % 2 * 64 + r % 64)
      × (next / 256 ≡ raw / 256)
      × (next < 2 ^ 64)
field_4 value raw r h e = (omega arith, omega arith, omega arith)

field_5 :
    (value raw r : ℕ)
    → r < 2 ^ 64
    → r / 256 ≡ raw / 256
    → let next = placed 1 8 (value / 2 ^ 8 % 2 ^ 1) r in
      (next % 512 ≡ value / 2 ^ 8 % 2 ^ 1 * 2 ^ 8 + r % 256)
      × (next / 512 ≡ raw / 512)
      × (next < 2 ^ 64)
field_5 value raw r h e = (omega arith, omega arith, omega arith)

field_6 :
    (value raw r : ℕ)
    → r < 2 ^ 64
    → r / 512 ≡ raw / 512
    → let next = placed 2 11 (value / 2 ^ 11 % 2 ^ 2) r in
      (next % 8192 ≡ value / 2 ^ 11 % 2 ^ 2 * 2 ^ 11 + raw / 512 % 4 * 512 + r % 512)
      × (next / 8192 ≡ raw / 8192)
      × (next < 2 ^ 64)
field_6 value raw r h e = (omega arith, omega arith, omega arith)

collected :
    (value raw r₁ r₂ r₃ r₄ r₅ r₆ : ℕ)
    → r₁ % 4 ≡ value / 2 % 2 * 2 + raw % 2
    → r₂ % 16 ≡ value / 8 % 2 * 8 + raw / 4 % 2 * 4 + r₁ % 4
    → r₃ % 64 ≡ value / 32 % 2 * 32 + raw / 16 % 2 * 16 + r₂ % 16
    → r₄ % 256 ≡ value / 128 % 2 * 128 + raw / 64 % 2 * 64 + r₃ % 64
    → r₅ % 512 ≡ value / 256 % 2 * 256 + r₄ % 256
    → r₆ % 8192 ≡ value / 2048 % 4 * 2048 + raw / 512 % 4 * 512 + r₅ % 512
    → r₆ / 8192 ≡ raw / 8192
    → r₆ ≡ mstatus_written value raw
collected value raw r₁ r₂ r₃ r₄ r₅ r₆ a b c d e f g =
    let whole : r₆ ≡ r₆ / 8192 * 8192 + r₆ % 8192 = omega arith in
    let two : value / 128 % 4 ≡ value / 256 % 2 * 2 + value / 128 % 2 = omega arith in
    whole ∙ (rw (g, f, e, d, c, b, a, two) (omega arith))

-- A write of mstatus through its six fields.
pub extract_all-mstatus :
    (enc : Encoding)
    → IsStandard enc
    → (value raw : ℕ) → value < 2 ^ 64
    → raw < 2 ^ 64
    → extract_all (fields_of enc RegisterName.mstatus) value raw ≡ (true, mstatus_written value raw)
unfolding extract_all fields_of
extract_all-mstatus enc std value raw v h =
    let f₁ = field_1 value raw h in
    let f₂ = field_2 value raw _ f₁.2 f₁.1 in
    let f₃ = field_3 value raw _ f₂.2 f₂.1 in
    let f₄ = field_4 value raw _ f₃.2 f₃.1 in
    let f₅ = field_5 value raw _ f₄.2 f₄.1 in
    let f₆ = field_6 value raw _ f₅.2 f₅.1 in
    taken (unchecked_field enc.mstatus_sie)
      (mie_field enc
        ∷ unchecked_field enc.mstatus_spie
        ∷ mpie_field enc
        ∷ unchecked_field enc.mstatus_spp
        ∷ mpp_field enc
        ∷ [])
      value raw (extract-unchecked 1 1 (omega arith) _ value raw std.sie v h)
    ∙ taken (mie_field enc)
        (unchecked_field enc.mstatus_spie
          ∷ mpie_field enc
          ∷ unchecked_field enc.mstatus_spp
          ∷ mpp_field enc
          ∷ [])
        value _ (extract-unchecked 1 3 (omega arith) _ value _ std.mie v f₁.2)
    ∙ taken (unchecked_field enc.mstatus_spie)
        (mpie_field enc ∷ unchecked_field enc.mstatus_spp ∷ mpp_field enc ∷ []) value _
        (extract-unchecked 1 5 (omega arith) _ value _ std.spie v f₂.2)
    ∙ taken (mpie_field enc) (unchecked_field enc.mstatus_spp ∷ mpp_field enc ∷ []) value _
        (extract-unchecked 1 7 (omega arith) _ value _ std.mpie v f₃.2)
    ∙ taken (unchecked_field enc.mstatus_spp) (mpp_field enc ∷ []) value _
        (extract-unchecked 1 8 (omega arith) _ value _ std.spp v f₄.2)
    ∙ taken (mpp_field enc) [] value _
        (extract-unchecked 2 11 (omega arith) _ value _ std.mpp v f₅.2)
    ∙ ap (λ (r : ℕ). (true, r)) (collected value raw _ _ _ _ _ _ f₁.0 f₂.0 f₃.0 f₄.0 f₅.0 f₆.0 f₆.1)
