-- ===== src/Memory/Insertion.antt =====
-- src/memory/phys-mem.cpp: insertion into the map of the devices.
use besm.Prelude.{
  ℕ, ◌<◌, ltb, Bool, true, false, Bool-cases, List, [], ◌∷◌, if◌then◌else◌, inl, inr, ◌≡◌, ◌≢◌, ◌⊎◌,
  refl, sym, ◌∙◌, subst, arith,
}
use besm.Memory.Range.{Range, contains, contains_range}
use besm.Memory.PhysMem.{Entry}
use besm.Memory.Lookup.{true-false, IsEntry, IsDisjoint}
use besm.Memory.Builder.{insert, contains_any}

-- A range that shares no position with the entries.
abbrev pub IsApart : Range → List Entry → Type 0
IsApart range devices =
    (entry : Entry)
    → IsEntry entry devices
    → (position : ℕ) → contains range position ≡ true
    → contains entry.0 position ≡ false

-- The three ways of an insertion in front of an entry.
inserted_by : Bool → Bool → Entry → Entry → List Entry → List Entry
inserted_by before behind new first devices =
    if before
    then new ∷ first ∷ devices
    else if behind
    then first ∷ insert new devices
    else first ∷ devices

inserted-IsEntry :
    (before behind : Bool) (entry new first : Entry) (devices : List Entry)
    → (IsEntry entry (insert new devices) → (entry ≡ new) ⊎ IsEntry entry devices)
    → IsEntry entry (inserted_by before behind new first devices)
    → (entry ≡ new) ⊎ IsEntry entry (first ∷ devices)
unfolding IsEntry inserted_by
inserted-IsEntry true behind entry new first devices later at = at
inserted-IsEntry false true entry new first devices later (inl at) = inr (inl at)
inserted-IsEntry false true entry new first devices later (inr at) = elim (later at) [
  | inl same ↦ inl same
  | inr old ↦ inr (inr old)
]
inserted-IsEntry false false entry new first devices later at = inr at

pub insert-IsEntry :
    (entry new : Entry) (devices : List Entry)
    → IsEntry entry (insert new devices)
    → (entry ≡ new) ⊎ IsEntry entry devices
unfolding IsEntry insert inserted_by
insert-IsEntry entry new [] at = at
insert-IsEntry entry new (first ∷ devices) at =
    inserted-IsEntry (ltb new.0.left_border first.0.left_border)
      (ltb first.0.left_border new.0.left_border) entry new first devices
      (insert-IsEntry entry new devices) at

-- Apart is a relation between entries.
pub apart-sym :
    (one other : Range)
    → ((position : ℕ) → contains one position ≡ true → contains other position ≡ false)
    → (position : ℕ) → contains other position ≡ true
    → contains one position ≡ false
apart-sym one other apart position holds = elim (Bool-cases (contains one position)) [
  | inl also ↦ absurd (true-false (sym holds ∙ apart position also))
  | inr out ↦ out
]

inserted-IsDisjoint :
    (before behind : Bool) (new first : Entry) (devices : List Entry)
    → IsDisjoint (first ∷ devices)
    → IsApart new.0 (first ∷ devices)
    → IsDisjoint (insert new devices)
    → IsDisjoint (inserted_by before behind new first devices)
unfolding IsDisjoint IsEntry inserted_by
inserted-IsDisjoint true behind new first devices disjoint apart rest = (apart, disjoint)
inserted-IsDisjoint false true new first devices disjoint apart rest = (
  λ entry at. elim (insert-IsEntry entry new devices at) [
    | inl same ↦
        subst
          (λ (e : Entry).
            (position : ℕ) → contains first.0 position ≡ true → contains e.0 position ≡ false)
          (sym same) (apart-sym new.0 first.0 (apart first (inl refl)))
    | inr old ↦ disjoint.0 entry old
  ],
  rest,
)
inserted-IsDisjoint false false new first devices disjoint apart rest = disjoint

pub insert-IsDisjoint :
    (new : Entry) (devices : List Entry)
    → IsDisjoint devices
    → IsApart new.0 devices
    → IsDisjoint (insert new devices)
unfolding IsDisjoint IsEntry insert inserted_by
insert-IsDisjoint new [] disjoint apart = ((λ entry at. absurd at), tt)
insert-IsDisjoint new (first ∷ devices) disjoint apart =
    inserted-IsDisjoint (ltb new.0.left_border first.0.left_border)
      (ltb first.0.left_border new.0.left_border) new first devices disjoint apart
      (insert-IsDisjoint new devices disjoint.1 (λ entry at. apart entry (inr at)))

not_contained :
    (range other : Range)
    → other.left_border < other.right_border
    → ((position : ℕ) → contains range position ≡ true → contains other position ≡ false)
    → contains_range range other ≡ false
unfolding contains contains_range
not_contained range other held apart = ground (arith, apart other.left_border)

different_lefts :
    (range other : Range)
    → range.left_border < range.right_border
    → other.left_border < other.right_border
    → ((position : ℕ) → contains range position ≡ true → contains other position ≡ false)
    → range.left_border ≢ other.left_border
unfolding contains
different_lefts range other held also apart e = ground (arith, apart other.left_border)

-- A range that holds a position and shares none contains no range.
pub apart-contains_any :
    (range : Range) (devices : List Entry)
    → ((entry : Entry) → IsEntry entry devices → entry.0.left_border < entry.0.right_border)
    → IsApart range devices
    → contains_any range devices ≡ false
unfolding IsEntry contains_any
apart-contains_any range [] held apart = refl
apart-contains_any range (first ∷ devices) held apart =
    let rest =
      apart-contains_any range devices (λ entry at. held entry (inr at))
        (λ entry at. apart entry (inr at)) in
    let here : contains_range range first.0 ≡ false =
      not_contained range first.0 (held first (inl refl)) (apart first (inl refl)) in
    rw (here, rest) refl

inserted-new :
    (before behind : Bool) (new first : Entry) (devices : List Entry)
    → ((before ≡ true) ⊎ (behind ≡ true))
    → IsEntry new (insert new devices)
    → IsEntry new (inserted_by before behind new first devices)
unfolding IsEntry inserted_by
inserted-new true behind new first devices ways later = inl refl
inserted-new false true new first devices ways later = inr later
inserted-new false false new first devices (inl way) later = absurd cc
inserted-new false false new first devices (inr way) later = absurd cc

one_way : (a b : ℕ) → a ≢ b → (ltb a b ≡ true) ⊎ (ltb b a ≡ true)
one_way a b differ = ground arith

pub insert-new :
    (new : Entry) (devices : List Entry)
    → new.0.left_border < new.0.right_border
    → ((entry : Entry) → IsEntry entry devices → entry.0.left_border < entry.0.right_border)
    → IsApart new.0 devices
    → IsEntry new (insert new devices)
unfolding IsEntry insert inserted_by
insert-new new [] held also apart = inl refl
insert-new new (first ∷ devices) held also apart =
    inserted-new (ltb new.0.left_border first.0.left_border)
      (ltb first.0.left_border new.0.left_border) new first devices
      (one_way new.0.left_border first.0.left_border
        (different_lefts new.0 first.0 held (also first (inl refl)) (apart first (inl refl))))
      (insert-new new devices held (λ entry at. also entry (inr at))
        (λ entry at. apart entry (inr at)))

inserted-old :
    (before behind : Bool) (entry new first : Entry) (devices : List Entry)
    → (IsEntry entry devices → IsEntry entry (insert new devices))
    → IsEntry entry (first ∷ devices)
    → IsEntry entry (inserted_by before behind new first devices)
unfolding IsEntry inserted_by
inserted-old true behind entry new first devices later at = inr at
inserted-old false true entry new first devices later (inl at) = inl at
inserted-old false true entry new first devices later (inr at) = inr (later at)
inserted-old false false entry new first devices later at = at

pub insert-old :
    (entry new : Entry) (devices : List Entry)
    → IsEntry entry devices
    → IsEntry entry (insert new devices)
unfolding IsEntry insert inserted_by
insert-old entry new [] at = absurd at
insert-old entry new (first ∷ devices) at =
    inserted-old (ltb new.0.left_border first.0.left_border)
      (ltb first.0.left_border new.0.left_border) entry new first devices
      (insert-old entry new devices) at
