-- ===== src/Memory/Writes.antt =====
-- src/memory/phys-mem.cpp: what a store does to the bytes behind the addresses.
use besm.Memory.Pages.{IsShort}
use besm.Prelude.{
  ℕ, ◌-◌, ◌≤◌, ◌==◌, ==_iff, true, false, Bool-cases, Option, none, some, inl, inr, ◌≡◌, ◌≢◌, refl,
  sym, ap, ◌∙◌, subst, fun_ext, arith,
}
use besm.Memory.Bytes.{put, put-outside, bytes_of, Bytes, covered}
use besm.Memory.Outcome.{
  Outcome, done, unaligned, invalid_address, invalid_argument, mapping_intersection, bad_alloc,
  undefined, ◌>>=◌,
}
use besm.Memory.Allocator.{Host, inside}
use besm.Memory.Pages.{IsAnonymous}
use besm.Memory.Range.{Range, contains-left}
use besm.Memory.Ram
use besm.Memory.Ram.{Ram}
use besm.Memory.View
use besm.Memory.Touch.{IsExtended}
use besm.Memory.Stores.{inside_at, inside_below, not_both}
use besm.Memory.Stored.{Stored, store_lem, IsStored}
use besm.Memory.PhysMem.{Entry, PhysMem, scan, cached, remember, set_ram, change, store_into, store}
use besm.Memory.Lookup.{scan-IsEntry, find_device_lem, cached-IsCoherent}
use besm.Memory.Physical.{
  byte_at, view, IsValid, IsInside, IsAccess, inside-IsEntry, inside-left, inside-scan,
}

-- What a store promises: a valid memory with the bytes written over the bytes, or `std::bad_alloc`.
pub record IsWritten (host : Host) (n address : ℕ) (source : Bytes) (before after : PhysMem)
    : Type 0 where
  pub valid : IsValid host after
  pub bytes : view after ≡ put n address source (view before)
  pub devices : after.devices ≡ before.devices
  pub page_size : (device : ℕ) → (after.rams device).page_size ≡ (before.rams device).page_size
  pub pages : (device : ℕ) → IsExtended (before.rams device) (after.rams device)

unfoldable pub Written : Host → ℕ → ℕ → Bytes → PhysMem → Outcome PhysMem → Type 0
Written host n address source before (done after) = IsWritten host n address source before after
Written host n address source before bad_alloc = IsShort host
Written host n address source before _ = ⊥

covered-shift :
    (n at left x : ℕ) → left ≤ at → left ≤ x → covered n (at - left) (x - left) ≡ covered n at x
unfolding covered
covered-shift n at left x h k = ground arith

-- A write, with every address moved down.
put-shift :
    (n at left x : ℕ) (source bytes others : Bytes)
    → left ≤ at
    → left ≤ x
    → bytes (x - left) ≡ others x
    → put n (at - left) source bytes (x - left) ≡ put n at source others x
unfolding put
put-shift n at left x source bytes others h k e =
    let cover : covered n (at - left) (x - left) ≡ covered n at x = covered-shift n at left x h k in
    let place : x - left - (at - left) ≡ x - at = omega arith in rw (cover, place, e) refl

abbrev entry : Range → ℕ → Option Entry
entry range device = some (range, device)

abbrev device_of : Option Entry → ℕ
device_of none = 0
device_of (some (range, device)) = device

other_entry :
    (other range : Range) (found device : ℕ)
    → found == device ≡ false
    → entry other found ≢ entry range device
other_entry other range found device differs e = not_both found device differs (ap device_of e)

view-at :
    (mem : PhysMem) (x : ℕ) (entry : Option Entry)
    → scan x mem.devices ≡ entry
    → view mem x ≡ byte_at mem.rams x entry
unfolding view
view-at mem x entry e = ap (byte_at mem.rams x) e

module _ {host : Host} {n address : ℕ} (source : Bytes) {mem : PhysMem} {range : Range} {device : ℕ}
    (valid : IsValid host mem) (inner : IsInside n address mem range device) where
  covered-scan : (x : ℕ) → covered n address x ≡ true → scan x mem.devices ≡ some (range, device)
  covered-scan x h =
      subst (λ y. scan y mem.devices ≡ some (range, device)) (sym (inside_at n address x h))
        (inside-scan valid inner (x - address) (inside_below n address x h))

  not_covered :
      (x : ℕ) (entry : Option Entry)
      → scan x mem.devices ≡ entry
      → entry ≢ some (range, device)
      → covered n address x ≡ false
  not_covered x entry e differs = elim (Bool-cases (covered n address x)) [
    | inl inner ↦ absurd (differs (sym e ∙ covered-scan x inner))
    | inr outer ↦ outer
  ]

  module _ (ram : Ram)
      (is : IsStored host n (address - range.left_border) source (mem.rams device) ram) where
    abbrev after : PhysMem
    after = set_ram device ram (cached (range, device) mem)

    -- The byte behind an entry after the store.
    written_entry :
        (x : ℕ) (entry : Option Entry)
        → scan x mem.devices ≡ entry
        → byte_at after.rams x entry ≡ put n address source (view mem) x
    unfolding byte_at set_ram
    written_entry x none e =
        sym (
          put-outside n address x source (view mem) (not_covered x none e cc)
          ∙ view-at mem x none e)
    written_entry x (some (other, found)) e = elim (Bool-cases (found == device)) [
      | inl same ↦
          let at : (other, found) ≡ (range, device) =
            valid.once (other, found) (range, device)
              (scan-IsEntry x mem.devices (other, found) e).0 (inside-IsEntry valid inner)
              ((==_iff found device).0 same) in
          let here = e ∙ ap (λ (entry : Entry). some entry) at in
          let left = contains-left range x (scan-IsEntry x mem.devices (range, device) here).1 in
          rw same (
            ap (λ (entry : Entry). View.view ram (x - entry.0.left_border)) at
            ∙ ap (λ (bytes : Bytes). bytes (x - range.left_border)) is.bytes
            ∙ put-shift n address range.left_border x source (View.view (mem.rams device))
                (view mem) (inside-left valid inner) left
                (sym (view-at mem x (some (range, device)) here)))
      | inr differs ↦ rw differs (
          sym (
            put-outside n address x source (view mem)
              (not_covered x (some (other, found)) e (other_entry other range found device differs))
            ∙ view-at mem x (some (other, found)) e))
    ]

    pub written : IsWritten host n address source mem after
    unfolding view set_ram
    written = record {
      valid = record {
        coherent = record {
          disjoint = valid.coherent.disjoint;
          last = (cached-IsCoherent mem address (range, device) valid.coherent inner.found).last;
        };
        rams = λ entry at. elim (Bool-cases (entry.1 == device)) [
          | inl same ↦ rw same is.valid
          | inr differs ↦ rw differs (valid.rams entry at)
        ];
        once = valid.once;
      };
      bytes = fun_ext (λ x. written_entry x (scan x mem.devices) refl);
      devices = refl;
      page_size = λ other. elim (Bool-cases (other == device)) [
        | inl same ↦
            rw same
              (is.page_size ∙ ap (λ d. (mem.rams d).page_size) (sym ((==_iff other device).0 same)))
        | inr differs ↦ rw differs refl
      ];
      pages = λ other. elim (Bool-cases (other == device)) [
        | inl same ↦ rw same (λ id nth place e. is.pages id nth place (
            subst (λ d. (mem.rams d).pagemap id ≡ some (inside nth place))
              ((==_iff other device).0 same) e))
        | inr differs ↦ rw differs (λ id nth place e. e)
      ];
    }

  changed-Written :
      (outcome : Outcome Ram)
      → Stored host n (address - range.left_border) source (mem.rams device) outcome
      → Written host n address source mem (change device (cached (range, device) mem) outcome)
  unfolding Stored Written
  changed-Written (done ram) is = written ram is
  changed-Written unaligned is = absurd is
  changed-Written invalid_address is = absurd is
  changed-Written invalid_argument is = absurd is
  changed-Written mapping_intersection is = absurd is
  changed-Written bad_alloc is = is
  changed-Written undefined is = absurd is

module _ {host : Host} {n address : ℕ} (value : ℕ) {mem : PhysMem} {range : Range} {device : ℕ}
    (valid : IsValid host mem) (access : IsAccess n address mem range device) where
  -- A store writes the bytes at its address, and no other.
  pub store-Written :
      IsAnonymous host
      → Written host n address (bytes_of value) mem (store host n mem address value)
  unfolding store
  store-Written anonymous =
      subst
        (λ (o : Outcome ((Range × Option ℕ) × PhysMem)).
          Written host n address (bytes_of value) mem (o >>= store_into host n address value))
        (sym (find_device_lem mem address valid.coherent ∙ ap (remember mem) access.inside.found))
        (changed-Written (bytes_of value) valid access.inside
          (Ram.store host n (mem.rams device) (address - range.left_border) value)
          (store_lem host n (address - range.left_border) value (mem.rams device) anonymous
            (valid.rams (range, device) (inside-IsEntry valid access.inside)) access.bytes
            access.page access.aligned))
