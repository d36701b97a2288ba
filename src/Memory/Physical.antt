-- ===== src/Memory/Physical.antt =====
-- src/memory/phys-mem.cpp: the devices together are one array of bytes.
use besm.Prelude.{ℕ, ◌+◌, ◌-◌, ◌%◌, ◌≤◌, ◌<◌, Option, none, some, ◌≡◌, sym, ap, ◌∙◌, arith}
use besm.Memory.Bytes.{Bytes, read_le, read_le_same}
use besm.Memory.Outcome.{Outcome, done, ◌>>=◌}
use besm.Memory.Allocator.{Host}
use besm.Memory.Range.{Range, contains-left, contains-intro}
use besm.Memory.Ram.{Ram}
use besm.Memory.View
use besm.Memory.View.{load_lem}
use besm.Memory.PhysMem.{Entry, PhysMem, scan, cached, remember, keep, load_from, load}
use besm.Memory.Lookup.{IsEntry, IsCoherent, scan-IsEntry, entry-scan, find_device_lem}

-- The byte of the device of an entry.
unfoldable pub byte_at : (ℕ → Ram) → ℕ → Option Entry → ℕ
byte_at rams address none = 0
byte_at rams address (some (range, device)) = View.view (rams device) (address - range.left_border)

-- The bytes behind the addresses, zero where there is no device.
unfoldable pub view : PhysMem → Bytes
view mem address = byte_at mem.rams address (scan address mem.devices)

-- Every device is mapped once, and is valid.
pub record IsValid (host : Host) (mem : PhysMem) : Type 0 where
  pub coherent : IsCoherent mem
  pub rams : (entry : Entry) → IsEntry entry mem.devices → View.IsValid host (mem.rams entry.1)
  pub once :
      (entry other : Entry)
      → IsEntry entry mem.devices
      → IsEntry other mem.devices
      → entry.1 ≡ other.1
      → entry ≡ other

-- `n` bytes behind one entry.
pub record IsInside (n address : ℕ) (mem : PhysMem) (range : Range) (device : ℕ) : Type 0 where
  pub found : scan address mem.devices ≡ some (range, device)
  pub fits : address + n ≤ range.right_border

-- An access of `n` bytes, aligned on its device and inside the device's range.
pub record IsAccess (n address : ℕ) (mem : PhysMem) (range : Range) (device : ℕ) : Type 0 where
  pub inside : IsInside n address mem range device
  pub bytes : 0 < n
  pub page : (mem.rams device).page_size % n ≡ 0
  pub aligned : (address - range.left_border) % n ≡ 0

module _ {host : Host} {n address : ℕ} {mem : PhysMem} {range : Range} {device : ℕ}
    (valid : IsValid host mem) (inner : IsInside n address mem range device) where
  pub inside-IsEntry : IsEntry (range, device) mem.devices
  inside-IsEntry = (scan-IsEntry address mem.devices (range, device) inner.found).0

  pub inside-left : range.left_border ≤ address
  inside-left =
      contains-left range address (scan-IsEntry address mem.devices (range, device) inner.found).1

  -- The other bytes lie behind the same entry.
  pub inside-scan : (i : ℕ) → i < n → scan (address + i) mem.devices ≡ some (range, device)
  inside-scan i below =
      entry-scan (address + i) mem.devices (range, device) valid.coherent.disjoint inside-IsEntry
        (contains-intro range (address + i) (omega (arith, inside-left))
          (omega (arith, inner.fits)))

  pub inside-view :
      (i : ℕ)
      → i < n
      → view mem (address + i) ≡ View.view (mem.rams device) (address - range.left_border + i)
  unfolding view byte_at
  inside-view i below =
      rw (inside-scan i below) (ap (View.view (mem.rams device)) (omega (arith, inside-left)))

module _ {host : Host} {n address : ℕ} {mem : PhysMem} {range : Range} {device : ℕ}
    (valid : IsValid host mem) (access : IsAccess n address mem range device) where
  -- A load reads the bytes at its address, whatever was accessed before.
  pub load-bytes :
      load n mem address ≡ done (read_le n address (view mem), cached (range, device) mem)
  unfolding load
  load-bytes =
      ap (λ (o : Outcome ((Range × Option ℕ) × PhysMem)). o >>= load_from n address)
        (find_device_lem mem address valid.coherent ∙ ap (remember mem) access.inside.found)
      ∙ ap (keep (cached (range, device) mem)) (
          load_lem host n (mem.rams device) (address - range.left_border)
            (valid.rams (range, device) (inside-IsEntry valid access.inside)) access.bytes
            access.page access.aligned)
      ∙ ap (λ (v : ℕ). done (v, cached (range, device) mem))
          (read_le_same n (address - range.left_border) address (View.view (mem.rams device))
            (view mem) (λ i below. sym (inside-view valid access.inside i below)))
