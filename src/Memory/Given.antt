-- ===== src/Memory/Given.antt =====
-- src/memory/ram.cpp: the page that `RAMPageAllocator` gives.
use besm.Prelude.{
  ℕ, suc, ◌+◌, ◌-◌, ◌≤◌, ◌<◌, ◌==◌, ==_iff, ltb, ltb→lt, true, Bool-cases, Option, none, some, inl,
  inr, ◌≡◌, refl, sym, ap, ◌∙◌, subst, arith,
}
use native.Mathlib.Nat.{zero-mod}
use besm.Memory.Bytes.{Bytes}
use besm.Memory.Sizes.{nearest_2pow_divident}
use besm.Memory.Allocator.{
  Host, Chunk, Allocator, mapped_chunk, new_chunk, grow_with, set_chunk, emplace_back, grow,
  take_or_grow, alloc_page,
}
use besm.Memory.Pages.{
  IsAnonymous, IsChunk, IsValid, IsFresh, IsShort, Allocated, step_fits, taken-IsChunk, taken,
  alloc_back-more, alloc_back-full, emplaced-count, emplaced-page_size, emplaced-last,
  emplaced-before, not_zero, below_last,
}

module _ (host : Host) where
  -- The last chunk gives its next page.
  taken-IsFresh :
      (allocator : Allocator) (last : ℕ)
      → IsValid host allocator
      → last < allocator.count
      → (allocator.chunks last).rower < (allocator.chunks last).size
      → IsFresh host allocator (taken last allocator) last (allocator.chunks last).rower
  unfolding set_chunk
  taken-IsFresh allocator last valid h more =
      let is = valid.chunk last h in
      let fits =
        step_fits (allocator.chunks last).rower (allocator.chunks last).size allocator.page_size
          valid.page is.aligned is.whole more in
      let itself : last == last ≡ true = (==_iff last last).1 refl in
      record {
        valid = record {
          page = valid.page;
          size = valid.size;
          whole = valid.whole;
          chunk = λ i below. elim (Bool-cases (i == last)) [
            | inl same ↦
                rw same
                  (taken-IsChunk allocator.page_size (allocator.chunks last) valid.page is more)
            | inr differs ↦ rw differs (valid.chunk i below)
          ];
        };
        page_size = refl;
        placed = record {
          chunk = h;
          aligned = is.aligned;
          below = rw (itself, is.same) (omega arith);
        };
        zeros = λ i below.
            rw itself (is.fresh ((allocator.chunks last).rower + i) (omega arith) (omega arith));
        kept = λ other place before. record {
          chunk = before.chunk;
          aligned = before.aligned;
          below = elim (Bool-cases (other == last)) [
            | inl same ↦ rw same (
                omega (
                  arith,
                  subst (λ i. place + allocator.page_size ≤ (allocator.chunks i).rower)
                      ((==_iff other last).0 same) before.below,
                ))
            | inr differs ↦ rw differs before.below
          ];
        };
        apart = λ other place before same equal. omega (
          arith,
          subst (λ i. place + allocator.page_size ≤ (allocator.chunks i).rower) same before.below,
          valid.page,
        );
        bytes = λ other below. elim (Bool-cases (other == last)) [
          | inl same ↦
              rw same (ap (λ i. (allocator.chunks i).bytes) (sym ((==_iff other last).0 same)))
          | inr differs ↦ rw differs refl
        ];
      }

  emplaced-IsValid :
      (allocator : Allocator) (chunk : Chunk)
      → IsValid host allocator
      → IsChunk allocator.page_size chunk
      → IsValid host (emplace_back chunk allocator)
  unfolding emplace_back set_chunk
  emplaced-IsValid allocator chunk valid is = record {
    page = valid.page;
    size = valid.size;
    whole = valid.whole;
    chunk = λ i below. elim (Bool-cases (i == allocator.count)) [
      | inl same ↦ rw same is
      | inr differs ↦ rw differs (valid.chunk i (below_last i allocator.count below differs))
    ];
  }

  -- What is fresh after a chunk was put behind the others is fresh.
  grown-IsFresh :
      (before grown after : Allocator) (offset : ℕ)
      → grown.page_size ≡ before.page_size
      → grown.count ≡ suc before.count
      → ((i : ℕ) → i < before.count → grown.chunks i ≡ before.chunks i)
      → IsFresh host grown after before.count offset
      → IsFresh host before after before.count offset
  grown-IsFresh before grown after offset page count chunks fresh = record {
    valid = fresh.valid;
    page_size = fresh.page_size ∙ page;
    placed = fresh.placed;
    zeros = λ i below. fresh.zeros i (rw page below);
    kept = λ other place placed. fresh.kept other place (record {
      chunk = omega (arith, count, placed.chunk);
      aligned = rw page placed.aligned;
      below = rw (page, chunks other placed.chunk) placed.below;
    });
    apart = λ other place placed same. absurd (omega (arith, placed.chunk));
    bytes = λ other below.
        fresh.bytes other (omega (arith, count)) ∙ ap (λ (c : Chunk). c.bytes) (chunks other below);
  }

  -- The first page of a new chunk.
  emplaced-IsFresh :
      (allocator : Allocator) (chunk : Chunk)
      → IsValid host allocator
      → IsChunk allocator.page_size chunk
      → chunk.rower ≡ 0
      → 0 < chunk.size
      → IsFresh host allocator
          (taken allocator.count (emplace_back chunk allocator))
          allocator.count
          ((emplace_back chunk allocator).chunks allocator.count).rower
  emplaced-IsFresh allocator chunk valid is start more =
      let grown = emplace_back chunk allocator in
      let last = emplaced-last allocator chunk in
      let count = emplaced-count allocator chunk in
      grown-IsFresh allocator grown (taken allocator.count grown)
        (grown.chunks allocator.count).rower (emplaced-page_size allocator chunk) count
        (emplaced-before allocator chunk)
        (taken-IsFresh grown allocator.count (emplaced-IsValid allocator chunk valid is)
          (omega arith) (rw (last, start) more))

  -- A page of a new chunk.
  grow_with-Allocated :
      (allocator : Allocator) (mapped : Option Bytes)
      → IsValid host allocator
      → ((bytes : Bytes)
          → mapped ≡ some bytes
          → (x : ℕ) → x < nearest_2pow_divident allocator.chunk_size host.page_size
          → bytes x ≡ 0)
      → (mapped ≡ none → IsShort host)
      → Allocated host allocator (
          grow_with allocator (
            mapped_chunk allocator.page_size
              (nearest_2pow_divident allocator.chunk_size host.page_size)
              mapped))
  unfolding grow_with mapped_chunk Allocated
  grow_with-Allocated allocator none valid zeros short = short refl
  grow_with-Allocated allocator (some bytes) valid zeros short =
      let size = nearest_2pow_divident allocator.chunk_size host.page_size in
      let chunk : Chunk = record {
        bytes = bytes;
        rower = 0;
        size = size;
        page_size = allocator.page_size;
      } in
      let is : IsChunk allocator.page_size chunk = record {
        same = refl;
        whole = valid.whole;
        aligned = zero-mod allocator.page_size;
        bound = omega arith;
        fresh = λ x above. zeros bytes refl x;
      } in
      rw
        (alloc_back-more (emplace_back chunk allocator) allocator.count
          (emplaced-count allocator chunk) (rw (emplaced-last allocator chunk) valid.size))
        (emplaced-IsFresh allocator chunk valid is refl valid.size)

  grow-Allocated :
      (allocator : Allocator)
      → IsAnonymous host
      → IsValid host allocator
      → Allocated host allocator (grow host allocator)
  unfolding grow new_chunk IsAnonymous IsShort
  grow-Allocated allocator anonymous valid =
      let size = nearest_2pow_divident allocator.chunk_size host.page_size in
      grow_with-Allocated allocator (host.mmap allocator.count size) valid
        (λ bytes e x below. anonymous allocator.count size bytes e x below)
        (λ e. (allocator.count, size, e))

  -- Given a valid allocator, over a host whose anonymous mappings are zeros: the page that
  -- `allocPage` gives lies whole in its chunk, apart from the pages given before, which stay and
  -- keep their bytes, and is filled with zeros; the allocator stays valid. No null page is given;
  -- `std::bad_alloc` is thrown only over a host that gives a null pointer for some mapping.
  pub alloc_page-Allocated :
      (allocator : Allocator)
      → IsAnonymous host
      → IsValid host allocator
      → Allocated host allocator (alloc_page host allocator)
  unfolding alloc_page take_or_grow Allocated
  alloc_page-Allocated allocator anonymous valid = elim (Bool-cases (allocator.count == 0)) [
    | inl empty ↦ rw empty (grow-Allocated allocator anonymous valid)
    | inr holds ↦
        let last = allocator.count - 1 in
        let e : allocator.count ≡ suc last = not_zero allocator.count holds in
        elim (Bool-cases (ltb (allocator.chunks last).rower (allocator.chunks last).size)) [
          | inl more ↦
              rw (holds, alloc_back-more allocator last e (ltb→lt _ _ more))
                (taken-IsFresh allocator last valid (omega arith) (ltb→lt _ _ more))
          | inr full ↦
              rw (holds, alloc_back-full allocator last e full)
                (grow-Allocated allocator anonymous valid)
        ]
  ]
