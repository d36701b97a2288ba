-- ===== src/Csr/Words.antt =====
-- What the fields of each register read and write, as arithmetic on its word.
use besm.Prelude.{
  ℕ, ◌+◌, ◌*◌, ◌/◌, ◌%◌, ◌^◌, ◌≤◌, ◌<◌, Bool, true, List, ◌∷◌, if◌then◌else◌, ◌≡◌, refl, arith,
  Bool-cases, inl, inr,
}
use native.Mathlib.Nat.{mod-le, div-le_self}
use besm.BitMagic.Runs.{run, extract_run, insert_run}
use besm.Csr.Field.{Field, get, set, extract, extract_all}
use besm.Csr.Registers.{
  Encoding, IsStandard, unchecked_field, warl_field, mie_field, mpie_field, mpp_field,
}

-- A word with `value` in the `bits` bits from `from` on.
abbrev pub placed : ℕ → ℕ → ℕ → ℕ → ℕ
placed bits from value raw =
    (raw / 2 ^ from / 2 ^ bits * 2 ^ bits + value % 2 ^ bits) * 2 ^ from + raw % 2 ^ from

module _ (bits from : ℕ) (fits : bits + from ≤ 64) where
  pub get-unchecked :
      (mask raw : ℕ)
      → mask ≡ run bits from
      → raw < 2 ^ 64
      → get (unchecked_field mask) raw ≡ raw / 2 ^ from % 2 ^ bits
  unfolding get
  get-unchecked mask raw e r = rw e (extract_run bits from raw fits r)

  pub set-unchecked :
      (mask value raw : ℕ)
      → mask ≡ run bits from
      → value < 2 ^ 64
      → raw < 2 ^ 64
      → set (unchecked_field mask) value raw ≡ (true, placed bits from value raw)
  unfolding set
  set-unchecked mask value raw e v r = rw (e, insert_run bits from value raw fits v r)

  pub extract-unchecked :
      (mask value raw : ℕ)
      → mask ≡ run bits from
      → value < 2 ^ 64
      → raw < 2 ^ 64
      → extract (unchecked_field mask) value raw
        ≡ (true, placed bits from (value / 2 ^ from % 2 ^ bits) raw)
  extract-unchecked mask value raw e v r =
      unfold extract in
      rw (e, extract_run bits from value fits v)
        (set-unchecked (run bits from) (value / 2 ^ from % 2 ^ bits) raw refl (small value v) r)
    where
      small : (x : ℕ) → x < 2 ^ 64 → x / 2 ^ from % 2 ^ bits < 2 ^ 64
      small x h = omega (arith, mod-le (x / 2 ^ from) (2 ^ bits), div-le_self x (2 ^ from))

-- The three fields of mstatus that traps use, at their places in the manual.
module _ (enc : Encoding) (standard : IsStandard enc) where
  pub get-mstatus :
      (raw : ℕ)
      → raw < 2 ^ 64
      → (get (mie_field enc) raw ≡ raw / 2 ^ 3 % 2)
        × (get (mpie_field enc) raw ≡ raw / 2 ^ 7 % 2)
        × (get (mpp_field enc) raw ≡ raw / 2 ^ 11 % 4)
  get-mstatus raw r = (
    get-unchecked 1 3 (omega arith) _ raw standard.mie r,
    get-unchecked 1 7 (omega arith) _ raw standard.mpie r,
    get-unchecked 2 11 (omega arith) _ raw standard.mpp r,
  )

  pub set-mstatus :
      (value raw : ℕ)
      → value < 2 ^ 64
      → raw < 2 ^ 64
      → (set (mie_field enc) value raw ≡ (true, placed 1 3 value raw))
        × (set (mpie_field enc) value raw ≡ (true, placed 1 7 value raw))
        × (set (mpp_field enc) value raw ≡ (true, placed 2 11 value raw))
  set-mstatus value raw v r = (
    set-unchecked 1 3 (omega arith) _ value raw standard.mie v r,
    set-unchecked 1 7 (omega arith) _ value raw standard.mpie v r,
    set-unchecked 2 11 (omega arith) _ value raw standard.mpp v r,
  )

-- A field that takes its bits hands the word on to the next one.
pub taken :
    (field : Field) (others : List Field) (value raw : ℕ) {next : ℕ}
    → extract field value raw ≡ (true, next)
    → extract_all (field ∷ others) value raw ≡ extract_all others value next
unfolding extract_all
taken field others value raw e = rw e

module _ (bits from : ℕ) (fits : bits + from ≤ 64) where
  pub set-warl :
      (mask : ℕ) (validator : ℕ → Bool) (value raw : ℕ)
      → mask ≡ run bits from
      → value < 2 ^ 64
      → raw < 2 ^ 64
      → set (warl_field mask validator) value raw
        ≡ (true, if validator value then placed bits from value raw else raw)
  unfolding set
  set-warl mask validator value raw e v r = elim (Bool-cases (validator value)) [
    | inl legal ↦ rw (legal, e, insert_run bits from value raw fits v r)
    | inr refused ↦ rw refused
  ]

  -- A WARL field checks the value and keeps the old one if it is not legal.
  pub extract-warl :
      (mask : ℕ) (validator : ℕ → Bool) (value raw : ℕ)
      → mask ≡ run bits from
      → value < 2 ^ 64
      → raw < 2 ^ 64
      → extract (warl_field mask validator) value raw ≡ (
        true,
        if validator (value / 2 ^ from % 2 ^ bits)
            then placed bits from (value / 2 ^ from % 2 ^ bits) raw
            else raw,
      )
  extract-warl mask validator value raw e v r =
      unfold extract in
      rw (e, extract_run bits from value fits v)
        (set-warl (run bits from) validator (value / 2 ^ from % 2 ^ bits) raw refl (small value v)
          r)
    where
      small : (x : ℕ) → x < 2 ^ 64 → x / 2 ^ from % 2 ^ bits < 2 ^ 64
      small x h = omega (arith, mod-le (x / 2 ^ from) (2 ^ bits), div-le_self x (2 ^ from))
