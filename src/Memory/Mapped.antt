-- ===== src/Memory/Mapped.antt =====
-- src/memory/phys-mem.cpp: what `PhysMemBuilder::mapRAM` does.
use besm.Prelude.{
  ◌⊎◌, ℕ, suc, ◌+◌, ◌^◌, ◌≤◌, ◌<◌, ◌==◌, ==_iff, false, Bool-cases, if◌then◌else◌, inl, inr, ◌≡◌,
  refl, sym, ap, ◌∙◌, subst, arith,
}
use native.Mathlib.Nat.{mod-eq_of_lt}
use besm.Memory.Outcome.{
  Outcome, done, unaligned, invalid_address, invalid_argument, mapping_intersection, bad_alloc,
  undefined, ◌>>=◌,
}
use besm.Memory.Allocator.{Host, Chunk}
use besm.Memory.Range.{Range}
use besm.Memory.Ram
use besm.Memory.Ram.{Ram}
use besm.Memory.View
use besm.Memory.Created.{Refused, Created, new-Created}
use besm.Memory.PhysMem.{Entry}
use besm.Memory.Pages.{below_last}
use besm.Memory.Lookup.{IsEntry}
use besm.Memory.Builder.{Builder, insert, contains_any, range_of, map_device, add_ram, map_ram}
use besm.Memory.Insertion.{
  IsApart, insert-IsEntry, insert-IsDisjoint, apart-contains_any, insert-new, insert-old,
}
use besm.Memory.Mapping.{IsBuilt}

-- A range that contains no other is mapped.
map_device_lem :
    (device address : ℕ) (builder : Builder) (range : Range)
    → range_of address (Ram.get_size (builder.rams device)) ≡ range
    → contains_any range builder.devices ≡ false
    → map_device device address builder
      ≡ done (record builder { devices = insert (range, device) builder.devices })
unfolding map_device
map_device_lem device address builder range e free =
    subst
      (λ (r : Range).
        (if contains_any r builder.devices
          then mapping_intersection
          else done (record builder { devices = insert (r, device) builder.devices }))
        ≡ done (record builder { devices = insert (range, device) builder.devices }))
      (sym e) (rw free refl)

not_last : (i n : ℕ) → i < n → i == n ≡ false
not_last i n h = ground arith

-- One device more than before, behind its range.
pub record IsMapped (host : Host) (range : Range) (page_size : ℕ) (before after : Builder)
    : Type 0 where
  pub built : IsBuilt host after
  pub new : IsEntry (range, before.count) after.devices
  pub kept : (entry : Entry) → IsEntry entry before.devices → IsEntry entry after.devices
  pub only :
      (entry : Entry)
      → IsEntry entry after.devices
      → (entry ≡ (range, before.count)) ⊎ IsEntry entry before.devices
  pub page : (after.rams before.count).page_size ≡ page_size
  pub others : (device : ℕ) → device < before.count → after.rams device ≡ before.rams device

-- What `mapRAM` promises: the device is mapped beside the others, or its sizes are refused.
unfoldable pub Mapped : Host → Range → ℕ → ℕ → ℕ → Builder → Outcome Builder → Type 0
Mapped host range ram_size page_size chunk_size before (done after) =
    IsMapped host range page_size before after
Mapped host range ram_size page_size chunk_size before invalid_argument =
    Refused ram_size page_size chunk_size
Mapped host range ram_size page_size chunk_size before _ = ⊥

module _ (host : Host) (host_bits address ram_size page_size chunk_size : ℕ) (chunks : ℕ → Chunk)
    (builder : Builder) (built : IsBuilt host builder) (some_bytes : 0 < ram_size)
    (no_wrap : address + ram_size < 2 ^ 64)
    (apart : IsApart (range_of address ram_size) builder.devices) where
  abbrev pub new : Entry
  new = (range_of address ram_size, builder.count)

  new_held : new.0.left_border < new.0.right_border
  new_held = omega (arith, mod-eq_of_lt no_wrap)

  device-of : {entry : Entry} → entry ≡ new → entry.1 ≡ builder.count
  device-of e = ap (λ (entry : Entry). entry.1) e

  pub added-IsBuilt :
      (ram : Ram)
      → View.IsValid host ram
      → View.view ram ≡ (λ x. 0)
      → IsBuilt host (record (add_ram ram builder) {
        devices = insert (range_of address ram_size, builder.count) builder.devices;
      })
  added-IsBuilt ram valid zeros = record {
    disjoint = insert-IsDisjoint new builder.devices built.disjoint apart;
    held = λ entry at. elim (insert-IsEntry entry new builder.devices at) [
      | inl same ↦ subst (λ (e : Entry). e.0.left_border < e.0.right_border) (sym same) new_held
      | inr old ↦ built.held entry old
    ];
    made = λ entry at. elim (insert-IsEntry entry new builder.devices at) [
      | inl same ↦ subst (λ (e : Entry). e.1 < suc builder.count) (sym same) (omega arith)
      | inr old ↦ omega (arith, built.made entry old)
    ];
    rams = λ device below. elim (Bool-cases (device == builder.count)) [
      | inl same ↦ rw same valid
      | inr differs ↦ rw differs (built.rams device (below_last device builder.count below differs))
    ];
    zeros = λ device below. elim (Bool-cases (device == builder.count)) [
      | inl same ↦ rw same zeros
      | inr differs ↦
          rw differs (built.zeros device (below_last device builder.count below differs))
    ];
    once = λ entry other at also e. elim (insert-IsEntry entry new builder.devices at) [
      | inl same ↦ elim (insert-IsEntry other new builder.devices also) [
        | inl equal ↦ same ∙ sym equal
        | inr old ↦ absurd (omega (arith, built.made other old, e, device-of same))
      ]
      | inr old ↦ elim (insert-IsEntry other new builder.devices also) [
        | inl equal ↦ absurd (omega (arith, built.made entry old, e, device-of equal))
        | inr older ↦ built.once entry other old older e
      ]
    ];
  }

  mapped :
      (outcome : Outcome Ram)
      → Created host ram_size page_size chunk_size outcome
      → Mapped host
          (range_of address ram_size)
          ram_size
          page_size
          chunk_size
          builder
          (outcome >>= (λ ram. map_device builder.count address (add_ram ram builder)))
  unfolding Created Mapped
  mapped (done ram) (valid, zeros, size, page) =
      let itself = (==_iff builder.count builder.count).1 refl in
      let range : range_of address (Ram.get_size ((add_ram ram builder).rams builder.count))
          ≡ range_of address ram_size =
        ap (range_of address) (rw itself size) in
      subst (λ o. Mapped host (range_of address ram_size) ram_size page_size chunk_size builder o)
        (sym (
          map_device_lem builder.count address (add_ram ram builder) (range_of address ram_size)
            range
            (apart-contains_any (range_of address ram_size) builder.devices built.held apart)))
        (record {
          built = added-IsBuilt ram valid zeros;
          new = insert-new new builder.devices new_held built.held apart;
          kept = λ entry at. insert-old entry new builder.devices at;
          only = λ entry at. insert-IsEntry entry new builder.devices at;
          page = rw itself page;
          others = λ device below. rw (not_last device builder.count below) refl;
        })
  mapped unaligned is = absurd is
  mapped invalid_address is = absurd is
  mapped invalid_argument is = is
  mapped mapping_intersection is = absurd is
  mapped bad_alloc is = absurd is
  mapped undefined is = absurd is

  -- `mapRAM` beside devices that are apart, valid and zero, of a range that has bytes, does not
  -- wrap and is apart from theirs, with sizes as the host takes them: the new device is in the map
  -- under its range, the others stay, and the devices are apart, valid and zero again, or the
  -- sizes are refused as the constructor of RAM does.
  pub map_ram-Mapped :
      host.page_size ≡ 2 ^ host_bits
      → host_bits < 64
      → page_size ≤ host.page_size
      → chunk_size + host.page_size < 2 ^ 64
      → Mapped host
          (range_of address ram_size)
          ram_size
          page_size
          chunk_size
          builder
          (map_ram address ram_size page_size chunk_size chunks builder)
  unfolding map_ram
  map_ram-Mapped e bits small fits =
      mapped (Ram.new ram_size page_size chunk_size chunks)
        (new-Created host host_bits ram_size page_size chunk_size chunks e bits small fits)
