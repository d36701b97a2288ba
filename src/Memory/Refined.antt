-- ===== src/Memory/Refined.antt =====
-- src/memory: the memory that the hart sees is an array of bytes, for every sequence of accesses.
use besm.Memory.Pages.{IsShort}
use besm.Prelude.{ℕ, some, ◌≡◌, refl, sym, ap, ◌∙◌, subst}
use besm.Memory.Bytes.{Bytes, bytes_of, put, read_le, write_le}
use besm.Memory.Outcome.{
  Outcome, done, unaligned, invalid_address, invalid_argument, mapping_intersection, bad_alloc,
  undefined, ◌>>=◌,
}
use besm.Memory.Allocator.{Host}
use besm.Memory.Pages.{IsAnonymous}
use besm.Memory.Range.{Range}
use besm.Memory.PhysMem
use besm.Memory.PhysMem.{Entry, PhysMem, cached, scan}
use besm.Memory.Lookup.{IsEntry, cached-IsCoherent}
use besm.Memory.Physical.{IsValid, IsAccess, view, load-bytes}
use besm.Memory.Writes.{Written, store-Written}
use besm.Memory.Mmu
use besm.Memory.Mmu.{load_lem}
use besm.Memory.Prefetcher.{Memory, load, store}
use besm.Memory.Linked.{IsLinked, IsWhole, kept-IsLinked}

-- A memory in order, and the bytes that it holds.
pub record Holds (host : Host) (mem : Memory) (bytes : Bytes) : Type 0 where
  pub valid : IsValid host mem.phys
  pub whole : IsWhole mem.phys
  pub linked : IsLinked mem.phys mem.prefetcher
  pub bytes_are : view mem.phys ≡ bytes

-- The map and the sizes of the pages, which no access changes.
pub record IsSameLayout (before after : PhysMem) : Type 0 where
  pub devices : after.devices ≡ before.devices
  pub page_size : (device : ℕ) → (after.rams device).page_size ≡ (before.rams device).page_size

-- What an access leaves: the bytes, in the layout that was there.
pub record IsLeft (host : Host) (before after : Memory) (bytes : Bytes) : Type 0 where
  pub holds : Holds host after bytes
  pub layout : IsSameLayout before.phys after.phys

pub layout-IsAccess :
    {before after : PhysMem} {n address : ℕ} {range : Range} {device : ℕ}
    → IsSameLayout before after
    → IsAccess n address before range device
    → IsAccess n address after range device
layout-IsAccess {n} {address} {range} {device} same access = record {
  inside = record {
    found =
        subst (λ devices. scan address devices ≡ some (range, device)) (sym same.devices)
          access.inside.found;
    fits = access.inside.fits;
  };
  bytes = access.bytes;
  page = rw (same.page_size device) access.page;
  aligned = access.aligned;
}

pub layout-IsWhole :
    {before after : PhysMem} → IsSameLayout before after → IsWhole before → IsWhole after
layout-IsWhole same whole = λ entry at.
    rw (same.page_size entry.1)
      (whole entry (subst (λ devices. IsEntry entry devices) same.devices at))

cached-view :
    (mem : PhysMem) (range : Range) (device : ℕ) → view (cached (range, device) mem) ≡ view mem
unfolding view
cached-view mem range device = refl

module _ {host : Host} {mem : Memory} {bytes : Bytes} (holds : Holds host mem bytes) {n address : ℕ}
    {range : Range} {device : ℕ} (access : IsAccess n address mem.phys range device) where
  -- A load gives the bytes and leaves them.
  pub load-Holds :
      (after : Memory) × (load n mem address ≡ done (read_le n address bytes, after))
      × IsLeft host mem after bytes
  unfolding load
  load-Holds = (
    record mem { phys = cached (range, device) mem.phys },
    rw (load_lem n mem.phys address ∙ load-bytes holds.valid access, holds.bytes_are) refl,
    record {
      holds = record {
        valid = record {
          coherent =
              cached-IsCoherent mem.phys address (range, device) holds.valid.coherent
                access.inside.found;
          rams = holds.valid.rams;
          once = holds.valid.once;
        };
        whole = holds.whole;
        linked =
            kept-IsLinked mem.phys (cached (range, device) mem.phys) mem.prefetcher refl (λ d. refl)
              (λ d id nth place e. e) holds.linked;
        bytes_are = cached-view mem.phys range device ∙ holds.bytes_are;
      };
      layout = record { devices = refl; page_size = λ d. refl };
    },
  )

-- A store writes its value, or there is no page for it.
unfoldable pub Kept : Host → Memory → Bytes → Outcome Memory → Type 0
Kept host before bytes (done after) = IsLeft host before after bytes
Kept host before bytes bad_alloc = IsShort host
Kept host before bytes _ = ⊥

kept :
    (host : Host) (n address : ℕ) (source : Bytes) (mem : Memory) (bytes : Bytes)
    (outcome : Outcome PhysMem)
    → Holds host mem bytes
    → Written host n address source mem.phys outcome
    → Kept host mem
        (put n address source bytes)
        (outcome >>= (λ later. done (record mem { phys = later })))
unfolding Written Kept
kept host n address source mem bytes (done later) holds is =
    let same : IsSameLayout mem.phys later = record {
      devices = is.devices;
      page_size = is.page_size;
    } in
    record {
      holds = record {
        valid = is.valid;
        whole = layout-IsWhole same holds.whole;
        linked =
            kept-IsLinked mem.phys later mem.prefetcher is.devices is.page_size is.pages
              holds.linked;
        bytes_are = is.bytes ∙ ap (put n address source) holds.bytes_are;
      };
      layout = same;
    }
kept host n address source mem bytes unaligned holds is = absurd is
kept host n address source mem bytes invalid_address holds is = absurd is
kept host n address source mem bytes invalid_argument holds is = absurd is
kept host n address source mem bytes mapping_intersection holds is = absurd is
kept host n address source mem bytes bad_alloc holds is = is
kept host n address source mem bytes undefined holds is = absurd is

pub store-Kept :
    (host : Host) (n address value : ℕ) (mem : Memory) (bytes : Bytes) (range : Range) (device : ℕ)
    → IsAnonymous host
    → Holds host mem bytes
    → IsAccess n address mem.phys range device
    → Kept host mem (write_le n address value bytes) (store host n mem address value)
unfolding store Mmu.store Mmu.translate_address
store-Kept host n address value mem bytes range device anonymous holds access =
    kept host n address (bytes_of value) mem bytes (PhysMem.store host n mem.phys address value)
      holds (store-Written value holds.valid access anonymous)
