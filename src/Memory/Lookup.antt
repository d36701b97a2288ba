-- ===== src/Memory/Lookup.antt =====
-- src/memory/phys-mem.cpp: what `findDevice` remembers does not change what it finds.
use besm.Prelude.{
  ℕ, true, false, Bool-cases, List, [], ◌∷◌, Option, none, some, if◌then◌else◌, inl, inr, ◌≡◌, ◌⊎◌,
  refl, sym, ap, ◌∙◌, subst,
}
use besm.Memory.Outcome.{done}
use besm.Memory.Range.{contains}
use besm.Memory.PhysMem.{Entry, PhysMem, scan, cached, remember, find_device}

-- The entries of a map.
unfoldable pub IsEntry : Entry → List Entry → Type 0
IsEntry entry [] = ⊥
IsEntry entry (first ∷ devices) = (entry ≡ first) ⊎ IsEntry entry devices

-- No two entries share a position.
unfoldable pub IsDisjoint : List Entry → Type 0
unfolding IsEntry
IsDisjoint [] = Unit
IsDisjoint ((range, device) ∷ devices) =
    ((entry : Entry)
      → IsEntry entry devices
      → (position : ℕ) → contains range position ≡ true
      → contains entry.0 position ≡ false)
    × IsDisjoint devices

pub true-false : true ≡ false → ⊥
true-false e = cc

entry_of : Entry → Option Entry → Entry
entry_of other none = other
entry_of other (some entry) = entry

pub some-injective : {one other : Entry} → some one ≡ some other → one ≡ other
unfolding entry_of
some-injective {one} e = ap (entry_of one) e

pub scan-IsEntry :
    (address : ℕ) (devices : List Entry) (entry : Entry)
    → scan address devices ≡ some entry
    → IsEntry entry devices × (contains entry.0 address ≡ true)
unfolding scan IsEntry
scan-IsEntry address [] entry e = absurd cc
scan-IsEntry address ((range, device) ∷ devices) entry e =
    elim (Bool-cases (contains range address)) [
      | inl here ↦
          let same : (range, device) ≡ entry = some-injective (
            subst (λ b. (if b then some (range, device) else scan address devices) ≡ some entry)
              here e) in
          (inl (sym same), subst (λ (other : Entry). contains other.0 address ≡ true) same here)
      | inr there ↦
          let (later, holds) = scan-IsEntry address devices entry (
            subst (λ b. (if b then some (range, device) else scan address devices) ≡ some entry)
              there e) in
          (inr later, holds)
    ]

-- A position of an entry is found there.
pub entry-scan :
    (address : ℕ) (devices : List Entry) (entry : Entry)
    → IsDisjoint devices
    → IsEntry entry devices
    → contains entry.0 address ≡ true
    → scan address devices ≡ some entry
unfolding scan IsEntry IsDisjoint
entry-scan address [] entry disjoint at h = absurd at
entry-scan address ((range, device) ∷ devices) entry disjoint (inl same) h =
    let here : contains range address ≡ true =
      subst (λ (other : Entry). contains other.0 address ≡ true) same h in
    rw here (ap (λ (other : Entry). some other) (sym same))
entry-scan address ((range, device) ∷ devices) entry disjoint (inr later) h =
    elim (Bool-cases (contains range address)) [
      | inl here ↦ absurd (true-false (sym h ∙ disjoint.0 entry later address here))
      | inr there ↦ rw there (entry-scan address devices entry disjoint.1 later h)
    ]

-- What is remembered is what the loop would find.
pub record IsCoherent (mem : PhysMem) : Type 0 where
  pub disjoint : IsDisjoint mem.devices
  pub last :
      (position : ℕ)
      → contains mem.last_range position ≡ true
      → (device : ℕ) × (mem.last_device ≡ some device)
        × (scan position mem.devices ≡ some (mem.last_range, device))

-- `findDevice` finds what its loop over the devices would find, and remembers it, whatever it
-- remembered before, if that was found so too and no two devices share a position.
pub find_device_lem :
    (mem : PhysMem) (address : ℕ)
    → IsCoherent mem
    → find_device mem address ≡ remember mem (scan address mem.devices)
unfolding find_device
find_device_lem mem address coherent = elim (Bool-cases (contains mem.last_range address)) [
  | inl last ↦
      let (device, e, found) = coherent.last address last in
      rw (last, found) (ap (λ o. done ((mem.last_range, o), record mem { last_device = o })) e)
  | inr other ↦ rw other refl
]

pub cached-IsCoherent :
    (mem : PhysMem) (address : ℕ) (entry : Entry)
    → IsCoherent mem
    → scan address mem.devices ≡ some entry
    → IsCoherent (cached entry mem)
cached-IsCoherent mem address (range, device) coherent found = record {
  disjoint = coherent.disjoint;
  last = λ position h. (
    device,
    refl,
    entry-scan position mem.devices (range, device) coherent.disjoint
        (scan-IsEntry address mem.devices (range, device) found).0 h,
  );
}
