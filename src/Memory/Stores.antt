-- ===== src/Memory/Stores.antt =====
-- include/besm-666/memory/ram.hpp and src/memory/ram.cpp: what a store does to the bytes of `RAM`.
use besm.Prelude.{
  ℕ, ◌+◌, ◌-◌, ◌*◌, ◌/◌, ◌%◌, ◌≤◌, ◌<◌, ◌==◌, ==_iff, true, false, Bool-cases, Option, none, some,
  inl, inr, ◌≡◌, ◌≢◌, ◌⊎◌, refl, sym, ap, ◌∙◌, subst, fun_ext, arith,
}
use native.Mathlib.Nat.{mod-lt, div-add-mod'}
use besm.Memory.Bytes.{Bytes, put, covered, put-inside, put-outside}
use besm.Memory.Allocator.{Host, Pointer, null, inside, set_chunk}
use besm.Memory.Pages.{IsChunk, IsPlaced, step_fits}
use besm.Memory.Ram.{Ram, write_bytes}
use besm.Memory.View.{IsValid, IsOn, byte_in, view, view-page}

pub outside_page :
    (n a x p place : ℕ)
    → x / p ≡ a / p
    → covered n a x ≡ false
    → covered n (place + a % p) (place + x % p) ≡ false
unfolding covered
outside_page n a x p place same out =
    ground (arith, div-add-mod' a p, div-add-mod' x p, ap (λ (q : ℕ). q * p) same)

pub lt_or_gt : (a b : ℕ) → a ≢ b → (a < b) ⊎ (b < a)
lt_or_gt a b differ = ground arith

pub not_both : (a b : ℕ) → a == b ≡ false → a ≢ b
not_both a b differs equal = ground arith

pub other_place :
    (n a x p place other : ℕ)
    → 0 < p
    → a % p + n ≤ p
    → place % p ≡ 0
    → other % p ≡ 0
    → other ≢ place
    → covered n (place + a % p) (other + x % p) ≡ false
unfolding covered
other_place n a x p place other hp fits one two differ = elim (lt_or_gt other place differ) [
  | inl less ↦ let apart = step_fits other place p hp two one less in ground (arith, mod-lt x hp)
  | inr more ↦ let apart = step_fits place other p hp one two more in ground (arith, mod-lt x hp)
]

pub inside_at : (n a x : ℕ) → covered n a x ≡ true → x ≡ a + (x - a)
unfolding covered
inside_at n a x h = ground arith

pub inside_below : (n a x : ℕ) → covered n a x ≡ true → x - a < n
unfolding covered
inside_below n a x h = ground arith

pub beyond : (n a b x : ℕ) → a + n ≤ b → b ≤ x → covered n a x ≡ false
unfolding covered
beyond n a b x h more = ground arith

-- The bytes of the page that is written, and of the others.
module _ (host : Host) (n address nth place : ℕ) (source : Bytes) (ram : Ram)
    (valid : IsValid host ram) (e : ram.pagemap (address / ram.page_size) ≡ some (inside nth place))
    (fits : address % ram.page_size + n ≤ ram.page_size) where
  abbrev pub after : Ram
  after = write_bytes n nth (place + address % ram.page_size) source ram

  pub written-placed : IsPlaced ram.allocator nth place
  written-placed = subst (λ o. IsOn ram.allocator o) e (valid.placed (address / ram.page_size))

  pub page_pos : 0 < ram.page_size
  page_pos = rw valid.page_size valid.allocator.page

  pub written-bytes :
      (after.allocator.chunks nth).bytes
      ≡ put n (place + address % ram.page_size) source (ram.allocator.chunks nth).bytes
  unfolding write_bytes set_chunk
  written-bytes = rw ((==_iff nth nth).1 refl) refl

  pub kept-bytes :
      (other : ℕ)
      → other == nth ≡ false
      → (after.allocator.chunks other).bytes ≡ (ram.allocator.chunks other).bytes
  unfolding write_bytes set_chunk
  kept-bytes other differs = rw differs refl

  pub kept-rower :
      (other : ℕ) → (after.allocator.chunks other).rower ≡ (ram.allocator.chunks other).rower
  unfolding write_bytes set_chunk
  kept-rower other = elim (Bool-cases (other == nth)) [
    | inl same ↦
        rw same (ap (λ i. (ram.allocator.chunks i).rower) (sym ((==_iff other nth).0 same)))
    | inr differs ↦ rw differs refl
  ]

  pub out_of_page :
      (x start : ℕ)
      → covered n address x ≡ false
      → ram.pagemap (x / ram.page_size) ≡ some (inside nth start)
      → covered n (place + address % ram.page_size) (start + x % ram.page_size) ≡ false
  out_of_page x start out at = elim (Bool-cases (start == place)) [
    | inl same ↦
        let start-place : start ≡ place = (==_iff start place).0 same in
        subst (λ s. covered n (place + address % ram.page_size) (s + x % ram.page_size) ≡ false)
          (sym start-place)
          (outside_page n address x ram.page_size place
            (valid.apart (x / ram.page_size) (address / ram.page_size) nth place
              (subst (λ s. ram.pagemap (x / ram.page_size) ≡ some (inside nth s)) start-place at) e)
            out)
    | inr differs ↦
        let placed : IsPlaced ram.allocator nth start =
          subst (λ o. IsOn ram.allocator o) at (valid.placed (x / ram.page_size)) in
        other_place n address x ram.page_size place start page_pos fits
          (rw valid.page_size written-placed.aligned) (rw valid.page_size placed.aligned)
          (λ equal. not_both start place differs equal)
  ]

  pub other_byte :
      (x : ℕ) (page : Option Pointer)
      → covered n address x ≡ false
      → ram.pagemap (x / ram.page_size) ≡ page
      → byte_in after.allocator page (x % ram.page_size)
        ≡ byte_in ram.allocator page (x % ram.page_size)
  unfolding byte_in
  other_byte x none out at = refl
  other_byte x (some null) out at = refl
  other_byte x (some (inside other start)) out at = elim (Bool-cases (other == nth)) [
    | inl same ↦
        let other-nth : other ≡ nth = (==_iff other nth).0 same in
        let spot = start + x % ram.page_size in
        ap (λ i. (after.allocator.chunks i).bytes spot) other-nth
        ∙ ap (λ (bytes : Bytes). bytes spot) written-bytes
        ∙ put-outside n (place + address % ram.page_size) spot source
            (ram.allocator.chunks nth).bytes
            (out_of_page x start out
              (subst (λ i. ram.pagemap (x / ram.page_size) ≡ some (inside i start)) other-nth at))
        ∙ ap (λ i. (ram.allocator.chunks i).bytes spot) (sym other-nth)
    | inr differs ↦
        ap (λ (bytes : Bytes). bytes (start + x % ram.page_size)) (kept-bytes other differs)
  ]

  pub written_byte : (i : ℕ) → i < n → view after (address + i) ≡ source i
  unfolding byte_in write_bytes
  written_byte i below =
      view-page after address i (some (inside nth place)) page_pos e (omega arith)
      ∙ ap (λ (bytes : Bytes). bytes (place + (address % ram.page_size + i))) written-bytes
      ∙ ap (put n (place + address % ram.page_size) source (ram.allocator.chunks nth).bytes)
          (omega arith)
      ∙ put-inside n (place + address % ram.page_size) i source (ram.allocator.chunks nth).bytes
          below

  pub written-view : view after ≡ put n address source (view ram)
  unfolding view write_bytes
  written-view = fun_ext (λ x. elim (Bool-cases (covered n address x)) [
    | inl in_it ↦
        let i = x - address in
        let at : x ≡ address + i = inside_at n address x in_it in
        subst (λ y. view after y ≡ put n address source (view ram) y) (sym at)
          (written_byte i (inside_below n address x in_it)
            ∙ sym (put-inside n address i source (view ram) (inside_below n address x in_it)))
    | inr out ↦
        other_byte x (ram.pagemap (x / ram.page_size)) out refl
        ∙ sym (put-outside n address x source (view ram) out)
  ])

  pub written-IsChunk : IsChunk ram.allocator.page_size (record (ram.allocator.chunks nth) {
    bytes = put n (place + address % ram.page_size) source (ram.allocator.chunks nth).bytes;
  })
  written-IsChunk =
      let placed = written-placed in
      let is = valid.allocator.chunk nth placed.chunk in
      let below : place + address % ram.page_size + n ≤ (ram.allocator.chunks nth).rower =
        omega (arith, placed.below, valid.page_size) in
      record {
        same = is.same;
        whole = is.whole;
        aligned = is.aligned;
        bound = is.bound;
        fresh = λ x above inner.
            put-outside n (place + address % ram.page_size) x source
              (ram.allocator.chunks nth).bytes
              (beyond n (place + address % ram.page_size) (ram.allocator.chunks nth).rower x below
                above)
            ∙ is.fresh x above inner;
      }

  pub still_on : (page : Option Pointer) → IsOn ram.allocator page → IsOn after.allocator page
  unfolding write_bytes set_chunk
  still_on none on = tt
  still_on (some null) on = absurd on
  still_on (some (inside other start)) on = record {
    chunk = on.chunk;
    aligned = on.aligned;
    below = subst (λ r. start + ram.allocator.page_size ≤ r) (sym (kept-rower other)) on.below;
  }

  pub written-IsValid : IsValid host after
  unfolding write_bytes set_chunk
  written-IsValid = record {
    allocator = record {
      page = valid.allocator.page;
      size = valid.allocator.size;
      whole = valid.allocator.whole;
      chunk = λ i below. elim (Bool-cases (i == nth)) [
        | inl same ↦ rw same written-IsChunk
        | inr differs ↦ rw differs (valid.allocator.chunk i below)
      ];
    };
    page_size = valid.page_size;
    placed = λ id. still_on (ram.pagemap id) (valid.placed id);
    apart = valid.apart;
  }
