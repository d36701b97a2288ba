-- ===== src/Memory/Bytes.antt =====
-- Values as bytes: what a load or a store through a pointer to an unsigned type does on a
-- little-endian host.
use besm.Prelude.{
  ℕ, zero, suc, ◌+◌, ◌-◌, ◌*◌, ◌/◌, ◌%◌, ◌^◌, ◌<◌, leb, ltb, ◌&&◌, Bool, true, false, if◌then◌else◌,
  ◌≡◌, refl, arith,
}
use native.Mathlib.Nat.{pow-suc}
use native.Mathlib.Numerals.{unary_clauses}

-- Bytes by their address or offset.
abbrev pub Bytes : Type 0
Bytes = ℕ → ℕ

-- The byte of a value at a place.
unfoldable pub byte_of : ℕ → ℕ → ℕ
byte_of zero value = value % 256
byte_of (suc place) value = byte_of place (value / 256)

unfoldable pub read_le : ℕ → ℕ → Bytes → ℕ
read_le zero at bytes = 0
read_le (suc n) at bytes = bytes at + 256 * read_le n (suc at) bytes

-- Where a write lands.
unfoldable pub covered : ℕ → ℕ → ℕ → Bool
covered n at x = leb at x && ltb x (at + n)

-- The bytes `data`, written over `bytes`.
unfoldable pub put : ℕ → ℕ → Bytes → Bytes → Bytes
put n at source bytes x = if covered n at x then source (x - at) else bytes x

-- The bytes of a value.
abbrev pub bytes_of : ℕ → Bytes
bytes_of value place = byte_of place value

abbrev pub write_le : ℕ → ℕ → ℕ → Bytes → Bytes
write_le n at value bytes = put n at (bytes_of value) bytes

covered-inside : (n at i : ℕ) → i < n → covered n at (at + i) ≡ true
unfolding covered
covered-inside n at i h = ground arith

place_inside : (at i : ℕ) → at + i - at ≡ i
place_inside at i = omega arith

suc_side : (a i : ℕ) → suc a + i ≡ a + suc i
suc_side a i = omega arith

-- The same bytes give the same value.
pub read_le_same :
    (n at other : ℕ) (bytes others : Bytes)
    → ((i : ℕ) → i < n → bytes (at + i) ≡ others (other + i))
    → read_le n at bytes ≡ read_le n other others
unfolding read_le
read_le_same zero at other bytes others same = refl
read_le_same (suc n) at other bytes others same =
    let first : bytes at ≡ others other = simp unary_clauses at (same 0 (omega arith)) in
    let rest =
      read_le_same n (suc at) (suc other) bytes others
        (λ i below. rw (suc_side at i, suc_side other i) (same (suc i) (omega arith))) in
    rw (first, rest) refl

pub read_le_zeros :
    (n at : ℕ) (bytes : Bytes) → ((i : ℕ) → i < n → bytes (at + i) ≡ 0) → read_le n at bytes ≡ 0
unfolding read_le
read_le_zeros zero at bytes zeros = refl
read_le_zeros (suc n) at bytes zeros =
    let first : bytes at ≡ 0 = simp unary_clauses at (zeros 0 (omega arith)) in
    let rest =
      read_le_zeros n (suc at) bytes
        (λ i below. rw (suc_side at i) (zeros (suc i) (omega arith))) in
    rw (first, rest) refl

pub put-outside :
    (n at x : ℕ) (source bytes : Bytes) → covered n at x ≡ false → put n at source bytes x ≡ bytes x
unfolding put
put-outside n at x source bytes out = rw out refl

pub put-inside :
    (n at i : ℕ) (source bytes : Bytes) → i < n → put n at source bytes (at + i) ≡ source i
unfolding put
put-inside n at i source bytes h =
    let cover : covered n at (at + i) ≡ true = covered-inside n at i h in
    rw (cover, place_inside at i) refl

-- Bytes that are those of a value are read as the value.
read_le-byte_of :
    (n at value : ℕ) (bytes : Bytes)
    → ((i : ℕ) → i < n → bytes (at + i) ≡ byte_of i value)
    → value < 256 ^ n
    → read_le n at bytes ≡ value
unfolding read_le byte_of
read_le-byte_of zero at value bytes same h = ground arith
read_le-byte_of (suc n) at value bytes same h =
    let first : bytes at ≡ value % 256 = simp unary_clauses at (same 0 (omega arith)) in
    let rest =
      read_le-byte_of n (suc at) (value / 256) bytes
        (λ i below. rw (suc_side at i) (same (suc i) (omega arith)))
        (ground (arith, pow-suc 256 n)) in
    omega arith

pub read-write_le :
    (n at value : ℕ) (bytes : Bytes)
    → value < 256 ^ n
    → read_le n at (write_le n at value bytes) ≡ value
read-write_le n at value bytes h =
    read_le-byte_of n at value (write_le n at value bytes)
      (λ i below. put-inside n at i (bytes_of value) bytes below) h
