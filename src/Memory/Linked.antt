-- ===== src/Memory/Linked.antt =====
-- src/memory/prefetcher.cpp: the prefetcher's saved address leads to the bytes of the memory.
use besm.Prelude.{
  ℕ, ◌+◌, ◌-◌, ◌*◌, ◌/◌, ◌%◌, ◌^◌, ◌≤◌, ◌<◌, true, some, inl, inr, ◌≡◌, ◌⊎◌, refl, sym, ap, ◌∙◌,
  subst, arith,
}
use native.Mathlib.Nat.{mod-lt, mod-le, div-add-mod', mul-mod_left}
use besm.Memory.Bytes.{read_le, read_le_same}
use besm.Memory.Outcome.{done}
use besm.Memory.Allocator.{Host, inside}
use besm.Memory.Pages.{step_fits}
use besm.Memory.Range.{Range, contains-intro}
use besm.Memory.View.{view-page, byte_in, aligned-fits}
use besm.Memory.Touch.{IsExtended}
use besm.Memory.PhysMem.{Entry, PhysMem, Area, area, scan}
use besm.Memory.Lookup.{IsEntry, entry-scan}
use besm.Memory.Physical.{IsValid, IsAccess, view, inside-IsEntry, inside-view}
use besm.Memory.Prefetcher.{Prefetcher, word_at, is_saved}

-- Where the saved address leads: into a page of a device, from an aligned place to its end.
pub record IsPage (mem : PhysMem) (prefetcher : Prefetcher) (range : Range) (device nth place : ℕ)
    : Type 0 where
  pub entry : IsEntry (range, device) mem.devices
  pub left : range.left_border ≤ prefetcher.start
  pub right : prefetcher.start < range.right_border
  pub page :
      (mem.rams device).pagemap
        ((prefetcher.start - range.left_border) / (mem.rams device).page_size)
      ≡ some (inside nth place)
  pub owner : prefetcher.saved.device ≡ device
  pub pointer :
      prefetcher.saved.pointer
      ≡ inside nth (place + (prefetcher.start - range.left_border) % (mem.rams device).page_size)
  pub len :
      prefetcher.len
      ≡ (mem.rams device).page_size
        - (prefetcher.start - range.left_border) % (mem.rams device).page_size
  pub aligned : (prefetcher.start - range.left_border) % 4 ≡ 0

-- The prefetcher has saved nothing, or the address of a page.
unfoldable pub IsLinked : PhysMem → Prefetcher → Type 0
IsLinked mem prefetcher =
    (prefetcher.len ≡ 0)
    ⊎ ((range : Range) × (device : ℕ) × (nth : ℕ) × (place : ℕ) × IsPage mem prefetcher range device
          nth place)

-- Every range ends with a page.
abbrev pub IsWhole : PhysMem → Type 0
IsWhole mem =
    (entry : Entry)
    → IsEntry entry mem.devices
    → (entry.0.right_border - entry.0.left_border) % (mem.rams entry.1).page_size ≡ 0

-- An aligned place in a page, and a later one of the same page.
pub same_word : (a d : ℕ) → a % 4 ≡ 0 → (a + d) % 4 ≡ 0 → d / 4 * 4 ≡ d
same_word a d one two = omega arith

-- The end of the page of a position is no later than the end of whole pages.
pub page-end : (a n p : ℕ) → 0 < p → a < n → n % p ≡ 0 → a + (p - a % p) ≤ n
page-end a n p h below whole =
    let first =
      step_fits (a / p * p) n p h (mul-mod_left (a / p) p) whole
        (omega (arith, div-add-mod' a p)) in
    omega (arith, div-add-mod' a p, mod-lt a h)

pub entry-page_size :
    {host : Host} {mem : PhysMem} (range : Range) (device : ℕ)
    → IsValid host mem
    → IsEntry (range, device) mem.devices
    → 0 < (mem.rams device).page_size
entry-page_size range device valid at =
    let of_device = valid.rams (range, device) at in rw of_device.page_size of_device.allocator.page

pub saved-before :
    (prefetcher : Prefetcher) (vaddress : ℕ)
    → is_saved prefetcher vaddress ≡ true
    → (prefetcher.start < vaddress) × (vaddress < prefetcher.start + prefetcher.len)
unfolding is_saved
saved-before prefetcher vaddress saved =
    let less = mod-le (prefetcher.start + prefetcher.len) (2 ^ 64) in ground (arith, less)

-- A saved address lies in the range that it was saved for.
pub saved-scan :
    {host : Host} {mem : PhysMem} {prefetcher : Prefetcher} (vaddress : ℕ) (range : Range)
    (device nth place : ℕ)
    → IsValid host mem
    → IsWhole mem
    → IsPage mem prefetcher range device nth place
    → is_saved prefetcher vaddress ≡ true
    → scan vaddress mem.devices ≡ some (range, device)
saved-scan {mem} {prefetcher} vaddress range device nth place valid whole is saved =
    let (after, before) = saved-before prefetcher vaddress saved in
    let end =
      page-end (prefetcher.start - range.left_border) (range.right_border - range.left_border)
        (mem.rams device).page_size (entry-page_size range device valid is.entry)
        (omega (arith, is.left, is.right)) (whole (range, device) is.entry) in
    entry-scan vaddress mem.devices (range, device) valid.coherent.disjoint is.entry
      (contains-intro range vaddress (omega (arith, is.left))
        (omega (arith, is.left, is.right, is.len)))

module _ {host : Host} {vaddress : ℕ} {mem : PhysMem} {range : Range} {device : ℕ}
    (valid : IsValid host mem) (access : IsAccess 4 vaddress mem range device) where
  -- The word of a page is the memory's.
  pub word-view :
      (nth place : ℕ)
      → (mem.rams device).pagemap ((vaddress - range.left_border) / (mem.rams device).page_size)
        ≡ some (inside nth place)
      → read_le 4
          (place + (vaddress - range.left_border) % (mem.rams device).page_size)
          ((mem.rams device).allocator.chunks nth).bytes
        ≡ read_le 4 vaddress (view mem)
  unfolding byte_in
  word-view nth place e =
      let ram = mem.rams device in
      let ps_pos = entry-page_size range device valid (inside-IsEntry valid access.inside) in
      let a = vaddress - range.left_border in
      let fits = aligned-fits a ram.page_size 4 (omega arith) ps_pos access.page access.aligned in
      read_le_same 4 (place + a % ram.page_size) vaddress (ram.allocator.chunks nth).bytes
        (view mem)
        (λ i below.
          ap (ram.allocator.chunks nth).bytes (omega arith)
          ∙ sym (view-page ram a i (some (inside nth place)) ps_pos e (omega arith))
          ∙ sym (inside-view valid access.inside i below))

-- A word through the address of a page.
pub word_at_lem :
    (behind : ℕ) (area : Area) (mem : PhysMem) (device nth place : ℕ)
    → area.device ≡ device
    → area.pointer ≡ inside nth place
    → word_at behind area mem
      ≡ done (read_le 4 (place + behind) ((mem.rams device).allocator.chunks nth).bytes)
word_at_lem behind area mem device nth place owner pointer = rw (owner, pointer) refl

-- What the prefetcher has saved outlives a memory whose pages stay.
pub kept-IsLinked :
    (before after : PhysMem) (prefetcher : Prefetcher)
    → after.devices ≡ before.devices
    → ((device : ℕ) → (after.rams device).page_size ≡ (before.rams device).page_size)
    → ((device : ℕ) → IsExtended (before.rams device) (after.rams device))
    → IsLinked before prefetcher
    → IsLinked after prefetcher
unfolding IsLinked
kept-IsLinked before after prefetcher devices sizes pages (inl empty) = inl empty
kept-IsLinked before after prefetcher devices sizes pages (inr (range, device, nth, place, is)) =
    inr (
      range,
      device,
      nth,
      place,
      record {
        entry = subst (λ all. IsEntry (range, device) all) (sym devices) is.entry;
        left = is.left;
        right = is.right;
        page =
            subst
              (λ p.
                (after.rams device).pagemap ((prefetcher.start - range.left_border) / p)
                ≡ some (inside nth place))
              (sym (sizes device))
              (pages device
                ((prefetcher.start - range.left_border) / (before.rams device).page_size) nth place
                is.page);
        owner = is.owner;
        pointer = rw (sizes device) is.pointer;
        len = rw (sizes device) is.len;
        aligned = is.aligned;
      },
    )
