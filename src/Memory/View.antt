-- ===== src/Memory/View.antt =====
-- include/besm-666/memory/ram.hpp and src/memory/ram.cpp: what `RAM` promises is an array of bytes,
-- zeros at first; its pages and chunks keep that promise.
use besm.Prelude.{
  ℕ, ◌+◌, ◌*◌, ◌/◌, ◌%◌, ◌≤◌, ◌<◌, ==_iff, Option, none, some, ◌≡◌, refl, sym, ap, ◌∙◌, arith,
}
use native.Mathlib.Nat.{mod-lt, div-add-mod', mod-mod_of_dvd, dvd_of_mod-eq-zero}
use besm.Prelude.Bits.{div-of-parts, mod-of-parts}
use besm.Memory.Bytes.{Bytes, read_le, read_le_same, read_le_zeros}
use besm.Memory.Outcome.{done}
use besm.Memory.Allocator.{Host, Pointer, null, inside, Allocator}
use besm.Memory.Pages
use besm.Memory.Pages.{IsAnonymous, IsPlaced, IsFresh, Allocated, step_fits}
use besm.Memory.Ram.{Ram, host_area, found, get_page_address, get_host_address, read_through, load}

-- The byte of a page at an offset, zero where there is no page.
unfoldable pub byte_in : Allocator → Option Pointer → ℕ → ℕ
byte_in allocator none offset = 0
byte_in allocator (some null) offset = 0
byte_in allocator (some (inside nth place)) offset = (allocator.chunks nth).bytes (place + offset)

-- The memory as an array of bytes.
unfoldable pub view : Ram → Bytes
unfolding byte_in
view ram address =
    byte_in ram.allocator (ram.pagemap (address / ram.page_size)) (address % ram.page_size)

-- An entry of the map: none, or a page of the allocator.
abbrev pub IsOn : Allocator → Option Pointer → Type 0
IsOn allocator none = Unit
IsOn allocator (some null) = ⊥
IsOn allocator (some (inside nth place)) = IsPlaced allocator nth place

-- The pages of the map were given out by the allocator, each to one id.
pub record IsValid (host : Host) (ram : Ram) : Type 0 where
  pub allocator : Pages.IsValid host ram.allocator
  pub page_size : ram.page_size ≡ ram.allocator.page_size
  pub placed : (id : ℕ) → IsOn ram.allocator (ram.pagemap id)
  pub apart :
      (id other nth place : ℕ)
      → ram.pagemap id ≡ some (inside nth place)
      → ram.pagemap other ≡ some (inside nth place)
      → id ≡ other

-- An aligned value does not leave its page.
pub aligned-fits : (a p n : ℕ) → 0 < n → 0 < p → p % n ≡ 0 → a % n ≡ 0 → a % p + n ≤ p
aligned-fits a p n hn hp whole aligned =
    step_fits (a % p) p n hn (mod-mod_of_dvd n a (dvd_of_mod-eq-zero n whole) ∙ aligned) whole
      (mod-lt a hp)

pub split_at : (a i p : ℕ) → a + i ≡ a / p * p + (a % p + i)
split_at a i p = omega (arith, div-add-mod' a p)

pub same_page-div : (a i p : ℕ) → 0 < p → a % p + i < p → (a + i) / p ≡ a / p
same_page-div a i p hp h =
    ap (λ (x : ℕ). x / p) (split_at a i p) ∙ div-of-parts p (a / p) (a % p + i) h

pub same_page-mod : (a i p : ℕ) → 0 < p → a % p + i < p → (a + i) % p ≡ a % p + i
same_page-mod a i p hp h =
    ap (λ (x : ℕ). x % p) (split_at a i p) ∙ mod-of-parts p (a / p) (a % p + i) h

-- The bytes of one page.
pub view-page :
    (ram : Ram) (address i : ℕ) (page : Option Pointer)
    → 0 < ram.page_size
    → ram.pagemap (address / ram.page_size) ≡ page
    → address % ram.page_size + i < ram.page_size
    → view ram (address + i) ≡ byte_in ram.allocator page (address % ram.page_size + i)
unfolding view
view-page ram address i page p e h =
    rw (same_page-div address i ram.page_size p h, same_page-mod address i ram.page_size p h, e)
      refl

pub read_found :
    (n : ℕ) (ram : Ram) (address : ℕ) (page : Option Pointer)
    → 0 < ram.page_size
    → address % ram.page_size + n ≤ ram.page_size
    → ram.pagemap (address / ram.page_size) ≡ page
    → read_through n ram (host_area ram.page_size (address % ram.page_size) (found page))
      ≡ read_le n address (view ram)
unfolding byte_in
read_found n ram address none p fits e =
    sym (
      read_le_zeros n address (view ram)
        (λ i below. view-page ram address i none p e (omega arith)))
read_found n ram address (some null) p fits e = sym (
    read_le_zeros n address (view ram)
      (λ i below. view-page ram address i (some null) p e (omega arith)))
read_found n ram address (some (inside nth place)) p fits e =
    read_le_same n (place + address % ram.page_size) address (ram.allocator.chunks nth).bytes
      (view ram)
      (λ i below.
        ap (ram.allocator.chunks nth).bytes (omega arith)
        ∙ sym (view-page ram address i (some (inside nth place)) p e (omega arith)))

-- A load of an aligned value reads the bytes at its address.
pub load_lem :
    (host : Host) (n : ℕ) (ram : Ram) (address : ℕ)
    → IsValid host ram
    → 0 < n
    → ram.page_size % n ≡ 0
    → address % n ≡ 0
    → load n ram address ≡ done (read_le n address (view ram))
unfolding load get_host_address get_page_address
load_lem host n ram address valid hn whole aligned =
    let p : 0 < ram.page_size = rw valid.page_size valid.allocator.page in
    rw ((==_iff (address % n) 0).1 aligned) (
      ap (λ (v : ℕ). done v)
        (read_found n ram address (ram.pagemap (address / ram.page_size)) p
          (aligned-fits address ram.page_size n hn p whole aligned) refl))

abbrev pub nth_of : Option Pointer → ℕ
nth_of (some (inside nth place)) = nth
nth_of page = 0

abbrev pub place_of : Option Pointer → ℕ
place_of (some (inside nth place)) = place
place_of page = 0

pub none-some : (mem : Pointer) → none ≡ some mem → ⊥
none-some mem e = cc
