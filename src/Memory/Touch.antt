-- ===== src/Memory/Touch.antt =====
-- src/memory/ram.cpp: touching a page changes no byte.
use besm.Memory.Pages.{IsShort}
use besm.Prelude.{
  ℕ, ◌+◌, ◌/◌, ◌%◌, ◌<◌, ◌==◌, ==_iff, Bool, true, false, Bool-cases, Option, none, some,
  if◌then◌else◌, inl, inr, ◌≡◌, ◌≢◌, ◌⊎◌, refl, sym, ap, ◌∙◌, subst, fun_ext,
}
use native.Mathlib.Nat.{mod-lt}
use besm.Memory.Bytes.{Bytes}
use besm.Memory.Allocator.{Host, Pointer, null, inside, Allocator, alloc_page}
use besm.Memory.Pages.{IsAnonymous, IsFresh, Allocated}
use besm.Memory.Given.{alloc_page-Allocated}
use besm.Memory.Ram.{Ram, insert_page, found_or_new}
use besm.Memory.View.{byte_in, view, IsOn, IsValid, nth_of, place_of, none-some}

-- The pages that are there stay where they are.
abbrev pub IsExtended : Ram → Ram → Type 0
IsExtended before after =
    (id nth place : ℕ)
    → before.pagemap id ≡ some (inside nth place)
    → after.pagemap id ≡ some (inside nth place)

-- What touching a page does: the page is there, and no byte changes.
pub record IsTouched (host : Host) (before after : Ram) (id nth place : ℕ) : Type 0 where
  pub valid : IsValid host after
  pub page_size : after.page_size ≡ before.page_size
  pub ram_size : after.ram_size ≡ before.ram_size
  pub page : after.pagemap id ≡ some (inside nth place)
  pub same : view after ≡ view before
  pub pages : IsExtended before after

unfoldable pub Touched : Host → ℕ → Ram → Option (Pointer × Ram) → Type 0
Touched host id before none = IsShort host
Touched host id before (some (null, after)) = ⊥
Touched host id before (some (inside nth place, after)) = IsTouched host before after id nth place

-- The pages that are there keep their bytes and their places.
module _ {host : Host} {before after : Allocator} {nth place : ℕ}
    (fresh : IsFresh host before after nth place) where
  kept-IsOn : (page : Option Pointer) → IsOn before page → IsOn after page
  kept-IsOn none on = tt
  kept-IsOn (some null) on = absurd on
  kept-IsOn (some (inside other offset)) on = fresh.kept other offset on

  kept-byte_in :
      (page : Option Pointer) (offset : ℕ)
      → IsOn before page
      → byte_in after page offset ≡ byte_in before page offset
  unfolding byte_in
  kept-byte_in none offset on = refl
  kept-byte_in (some null) offset on = absurd on
  kept-byte_in (some (inside other start)) offset on =
      ap (λ (bytes : Bytes). bytes (start + offset)) (fresh.bytes other on.chunk)

  -- No page that is there is the new one.
  new-page : (page : Option Pointer) → IsOn before page → page ≢ some (inside nth place)
  new-page none on e = cc
  new-page (some null) on e = absurd on
  new-page (some (inside other offset)) on e =
      fresh.apart other offset on (ap nth_of e) (ap place_of e)

  -- Two entries that agree after the new page are both the new one, or both old.
  both_or_neither :
      (b c : Bool) (p q mem : Option Pointer)
      → IsOn before p
      → IsOn before q
      → (if b then some (inside nth place) else p) ≡ mem
      → (if c then some (inside nth place) else q) ≡ mem
      → ((b ≡ true) × (c ≡ true)) ⊎ ((p ≡ mem) × (q ≡ mem))
  both_or_neither true true p q mem on also e f = inl (refl, refl)
  both_or_neither true false p q mem on also e f = absurd (new-page q also (f ∙ sym e))
  both_or_neither false true p q mem on also e f = absurd (new-page p on (e ∙ sym f))
  both_or_neither false false p q mem on also e f = inr (e, f)

-- A new page, put under its id.
inserted :
    (host : Host) (ram : Ram) (id : ℕ) (given : Option (Pointer × Allocator))
    → IsValid host ram
    → ram.pagemap id ≡ none
    → Allocated host ram.allocator given
    → Touched host id ram (insert_page id ram given)
unfolding insert_page Allocated Touched view byte_in
inserted host ram id none valid absent fresh = fresh
inserted host ram id (some (null, allocator)) valid absent fresh = absurd fresh
inserted host ram id (some (inside nth place, allocator)) valid absent fresh = record {
  valid = record {
    allocator = fresh.valid;
    page_size = valid.page_size ∙ sym fresh.page_size;
    placed = λ other. elim (Bool-cases (other == id)) [
      | inl new ↦ rw new fresh.placed
      | inr old ↦ rw old (kept-IsOn fresh (ram.pagemap other) (valid.placed other))
    ];
    apart = λ one other mem_nth mem_place e f.
        elim (both_or_neither fresh (one == id) (other == id) (ram.pagemap one) (ram.pagemap other)
          (some (inside mem_nth mem_place)) (valid.placed one) (valid.placed other) e f) [
            | inl (new, also) ↦ (==_iff one id).0 new ∙ sym ((==_iff other id).0 also)
            | inr (old, also) ↦ valid.apart one other mem_nth mem_place old also
          ];
  };
  page_size = refl;
  ram_size = refl;
  page = rw ((==_iff id id).1 refl) refl;
  same = fun_ext (λ x. elim (Bool-cases (x / ram.page_size == id)) [
    | inl new ↦
        rw (new, ap ram.pagemap ((==_iff (x / ram.page_size) id).0 new) ∙ absent)
          (fresh.zeros (x % ram.page_size) (
            subst (λ p. x % ram.page_size < p) valid.page_size
              (mod-lt x (rw valid.page_size valid.allocator.page))))
    | inr old ↦ rw old (
        kept-byte_in fresh (ram.pagemap (x / ram.page_size)) (x % ram.page_size)
          (valid.placed (x / ram.page_size)))
  ]);
  pages = λ other mem_nth mem_place e. elim (Bool-cases (other == id)) [
    | inl new ↦ absurd (
        none-some (inside mem_nth mem_place)
          (sym absent ∙ ap ram.pagemap (sym ((==_iff other id).0 new)) ∙ e))
    | inr old ↦ rw old e
  ];
}

pub found_or_new-Touched :
    (host : Host) (ram : Ram) (id : ℕ) (page : Option Pointer)
    → IsAnonymous host
    → IsValid host ram
    → ram.pagemap id ≡ page
    → Touched host id ram (found_or_new host id ram page)
unfolding found_or_new Touched
found_or_new-Touched host ram id none anonymous valid e =
    inserted host ram id (alloc_page host ram.allocator) valid e
      (alloc_page-Allocated host ram.allocator anonymous valid.allocator)
found_or_new-Touched host ram id (some null) anonymous valid e =
    absurd (subst (λ o. IsOn ram.allocator o) e (valid.placed id))
found_or_new-Touched host ram id (some (inside nth place)) anonymous valid e = record {
  valid = valid;
  page_size = refl;
  ram_size = refl;
  page = e;
  same = refl;
  pages = λ other mem_nth mem_place f. f;
}
