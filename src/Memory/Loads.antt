-- ===== src/Memory/Loads.antt =====
-- src/memory/phys-mem.cpp: what `PhysMemLoader::loadElf` leaves in the memory.
use besm.Memory.Pages.{IsShort}
use besm.Prelude.{
  ℕ, ◌+◌, ◌^◌, ◌≤◌, Option, none, some, List, [], ◌∷◌, ◌≡◌, refl, sym, ap, ◌∙◌, subst,
}
use besm.Memory.Bytes.{Bytes, put}
use besm.Memory.Outcome.{
  Outcome, done, unaligned, invalid_address, invalid_argument, mapping_intersection, bad_alloc,
  undefined,
}
use besm.Memory.Allocator.{Host}
use besm.Memory.Pages.{IsAnonymous}
use besm.Memory.Range.{Range}
use besm.Memory.PhysMem.{PhysMem, scan}
use besm.Memory.Physical.{IsValid, IsInside, view}
use besm.Memory.Writes.{IsWritten, Written}
use besm.Memory.Copies.{store_cont_area-Copied}
use besm.Memory.Loader.{LoadableSegment, loads_on, load_elf}

-- The bytes after the segments.
unfoldable pub loaded_bytes : List LoadableSegment → Bytes → Bytes
loaded_bytes [] bytes = bytes
loaded_bytes (segment ∷ segments) bytes =
    loaded_bytes segments (put segment.size segment.address segment.source bytes)

-- Every segment lies in one device.
unfoldable pub AreInside : List LoadableSegment → PhysMem → Type 0
AreInside [] mem = Unit
AreInside (segment ∷ segments) mem =
    ((range : Range) × (device : ℕ) × IsInside segment.size segment.address mem range device)
    × (segment.address + segment.size ≤ 2 ^ 64)
    × AreInside segments mem

-- What loading promises: it ends, with the segments in the memory or for want of a page.
pub record IsLoaded (host : Host) (segments : List LoadableSegment) (before after : PhysMem)
    : Type 0 where
  pub valid : IsValid host after
  pub bytes : view after ≡ loaded_bytes segments (view before)
  pub devices : after.devices ≡ before.devices
  pub page_size : (device : ℕ) → (after.rams device).page_size ≡ (before.rams device).page_size

unfoldable pub Loaded : Host → List LoadableSegment → PhysMem → Option (Outcome PhysMem) → Type 0
Loaded host segments before none = ⊥
Loaded host segments before (some (done after)) = IsLoaded host segments before after
Loaded host segments before (some bad_alloc) = IsShort host
Loaded host segments before (some _) = ⊥

kept-AreInside :
    (before after : PhysMem)
    → after.devices ≡ before.devices
    → (segments : List LoadableSegment) → AreInside segments before
    → AreInside segments after
unfolding AreInside
kept-AreInside before after same [] inner = tt
kept-AreInside before after same (segment ∷ segments) ((range, device, is), small, rest) = (
  (
    range,
    device,
    record {
      found =
          subst (λ devices. scan segment.address devices ≡ some (range, device)) (sym same)
            is.found;
      fits = is.fits;
    },
  ),
  small,
  kept-AreInside before after same segments rest,
)

module _ (host : Host) (segment : LoadableSegment) (segments : List LoadableSegment) where
  behind-Loaded :
      (before after : PhysMem) (result : Option (Outcome PhysMem))
      → IsWritten host segment.size segment.address segment.source before after
      → Loaded host segments after result
      → Loaded host (segment ∷ segments) before result
  unfolding Loaded loaded_bytes
  behind-Loaded before after none is rest = absurd rest
  behind-Loaded before after (some (done last)) is rest = record {
    valid = rest.valid;
    bytes = rest.bytes ∙ ap (loaded_bytes segments) is.bytes;
    devices = rest.devices ∙ is.devices;
    page_size = λ device. rest.page_size device ∙ is.page_size device;
  }
  behind-Loaded before after (some unaligned) is rest = absurd rest
  behind-Loaded before after (some invalid_address) is rest = absurd rest
  behind-Loaded before after (some invalid_argument) is rest = absurd rest
  behind-Loaded before after (some mapping_intersection) is rest = absurd rest
  behind-Loaded before after (some bad_alloc) is rest = rest
  behind-Loaded before after (some undefined) is rest = absurd rest

  on-Loaded :
      (mem : PhysMem) (outcome : Outcome PhysMem)
      → ((after : PhysMem)
          → IsWritten host segment.size segment.address segment.source mem after
          → Loaded host segments after (load_elf host segments after))
      → Written host segment.size segment.address segment.source mem outcome
      → Loaded host
          (segment ∷ segments)
          mem
          (loads_on (λ (later : PhysMem). load_elf host segments later) (some outcome))
  unfolding Written Loaded
  on-Loaded mem (done after) rest is =
      behind-Loaded mem after (load_elf host segments after) is (rest after is)
  on-Loaded mem unaligned rest is = absurd is
  on-Loaded mem invalid_address rest is = absurd is
  on-Loaded mem invalid_argument rest is = absurd is
  on-Loaded mem mapping_intersection rest is = absurd is
  on-Loaded mem bad_alloc rest is = is
  on-Loaded mem undefined rest is = absurd is

pub load_elf-Loaded :
    (host : Host) (segments : List LoadableSegment) (mem : PhysMem)
    → IsAnonymous host
    → IsValid host mem
    → AreInside segments mem
    → Loaded host segments mem (load_elf host segments mem)
unfolding load_elf AreInside Loaded loaded_bytes
load_elf-Loaded host [] mem anonymous valid inner = record {
  valid = valid;
  bytes = refl;
  devices = refl;
  page_size = λ device. refl;
}
load_elf-Loaded host (segment ∷ segments) mem anonymous valid ((range, device, is), small, inner) =
    let (outcome, e, written) =
      store_cont_area-Copied host segment.address segment.source segment.size mem range device
        anonymous valid is small in
    rw e (
      on-Loaded host segment segments mem outcome
        (λ after done_so.
          load_elf-Loaded host segments after anonymous done_so.valid
            (kept-AreInside mem after done_so.devices segments inner))
        written)
