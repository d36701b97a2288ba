-- ===== src/Hart/Signed.antt =====
-- include/besm-666/util/bit-magic.hpp, `Signify` and `Unsignify`, and the signed operators of C++
-- on the integers they give.
use besm.Prelude.{ℕ, ◌-◌, ◌/◌, ◌%◌, ◌^◌, ltb, Bool, true, false, if◌then◌else◌}

pub data ℤ : Type 0 where
  pos negsuc : ℕ → ℤ

-- `Signify` of a `w`-bit value, in two's complement.
unfoldable pub signify : ℕ → ℕ → ℤ
signify w x = if ltb x (2 ^ (w - 1)) then pos x else negsuc (2 ^ w - 1 - x)

-- `Unsignify`, and the conversion to an unsigned type of `w` bits.
unfoldable pub unsignify : ℕ → ℤ → ℕ
unsignify w (pos n) = n % 2 ^ w
unsignify w (negsuc n) = 2 ^ w - 1 - n % 2 ^ w

-- `a < b`
unfoldable pub less : ℤ → ℤ → Bool
less (pos a) (pos b) = ltb a b
less (pos a) (negsuc b) = false
less (negsuc a) (pos b) = true
less (negsuc a) (negsuc b) = ltb b a

-- `a >> k`, which rounds down.
unfoldable pub shift_right : ℤ → ℕ → ℤ
shift_right (pos n) k = pos (n / 2 ^ k)
shift_right (negsuc n) k = negsuc (n / 2 ^ k)

-- A load's value goes through `Signify` at its own type and `Unsignify` at 64 bits.
unfoldable pub widen : ℕ → ℕ → ℕ
unfolding signify unsignify
widen bits value = unsignify 64 (signify bits value)
