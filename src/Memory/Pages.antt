-- ===== src/Memory/Pages.antt =====
-- src/memory/ram.cpp: the pages of `RAMPageAllocator` lie whole in their chunks, apart from each
-- other, and hold zeros until they are given out.
use besm.Prelude.{
  ℕ, zero, suc, ◌+◌, ◌-◌, ◌*◌, ◌/◌, ◌%◌, ◌≤◌, ◌<◌, ◌==◌, ==_iff, ltb, lt→ltb, false, Bool-cases,
  Option, none, some, inl, inr, ◌≡◌, ◌≢◌, refl, sym, ap, fun_ext, arith,
}
use native.Mathlib.Nat.{div-add-mod', suc-mul}
use besm.Memory.Bytes.{Bytes}
use besm.Memory.Sizes.{nearest_2pow_divident}
use besm.Memory.Allocator.{
  Host, Pointer, null, inside, Chunk, Allocator, chunk_alloc_page, set_chunk, alloc_back,
  emplace_back,
}

-- Anonymous mappings are filled with zeros.
unfoldable pub IsAnonymous : Host → Type 0
IsAnonymous host =
    (nth size : ℕ) (bytes : Bytes)
    → host.mmap nth size ≡ some bytes
    → (x : ℕ) → x < size
    → bytes x ≡ 0

pub record IsChunk (page_size : ℕ) (chunk : Chunk) : Type 0 where
  pub same : chunk.page_size ≡ page_size
  pub whole : chunk.size % page_size ≡ 0
  pub aligned : chunk.rower % page_size ≡ 0
  pub bound : chunk.rower ≤ chunk.size
  pub fresh : (x : ℕ) → chunk.rower ≤ x → x < chunk.size → chunk.bytes x ≡ 0

pub record IsValid (host : Host) (allocator : Allocator) : Type 0 where
  pub page : 0 < allocator.page_size
  pub size : 0 < nearest_2pow_divident allocator.chunk_size host.page_size
  pub whole : nearest_2pow_divident allocator.chunk_size host.page_size % allocator.page_size ≡ 0
  pub chunk : (i : ℕ) → i < allocator.count → IsChunk allocator.page_size (allocator.chunks i)

-- A page that was given out: its chunk and its offset there.
pub record IsPlaced (allocator : Allocator) (nth offset : ℕ) : Type 0 where
  pub chunk : nth < allocator.count
  pub aligned : offset % allocator.page_size ≡ 0
  pub below : offset + allocator.page_size ≤ (allocator.chunks nth).rower

-- What a page given out is, and what becomes of the others.
pub record IsFresh (host : Host) (before after : Allocator) (nth offset : ℕ) : Type 0 where
  pub valid : IsValid host after
  pub page_size : after.page_size ≡ before.page_size
  pub placed : IsPlaced after nth offset
  pub zeros : (i : ℕ) → i < before.page_size → (after.chunks nth).bytes (offset + i) ≡ 0
  pub kept : (other place : ℕ) → IsPlaced before other place → IsPlaced after other place
  pub apart : (other place : ℕ) → IsPlaced before other place → other ≡ nth → place ≢ offset
  pub bytes :
      (other : ℕ) → other < before.count → (after.chunks other).bytes ≡ (before.chunks other).bytes

-- The host has no bytes for some mapping.
unfoldable pub IsShort : Host → Type 0
IsShort host = (nth : ℕ) × (size : ℕ) × (host.mmap nth size ≡ none)

unfoldable pub Allocated : Host → Allocator → Option (Pointer × Allocator) → Type 0
Allocated host before none = IsShort host
Allocated host before (some (null, after)) = ⊥
Allocated host before (some (inside nth offset, after)) = IsFresh host before after nth offset

pub set_chunk_self :
    (i : ℕ) (allocator : Allocator) → set_chunk i (allocator.chunks i) allocator ≡ allocator
unfolding set_chunk
set_chunk_self i allocator =
    ap (λ (chunks : ℕ → Chunk). record allocator { chunks = chunks })
      (fun_ext (λ j. elim (Bool-cases (j == i)) [
        | inl same ↦ rw same (ap allocator.chunks (sym ((==_iff j i).0 same)))
        | inr differs ↦ rw differs refl
      ]))

pub next_multiple : (q r p : ℕ) → q * p < r * p → q * p + p ≤ r * p
next_multiple q zero p h = absurd (omega arith)
next_multiple zero (suc r) p h = grind arith
next_multiple (suc q) (suc r) p h =
    grind (
      arith,
      next_multiple q r p (omega (arith, suc-mul q p, suc-mul r p)),
      suc-mul q p,
      suc-mul r p,
    )

pub step_fits : (a b p : ℕ) → 0 < p → a % p ≡ 0 → b % p ≡ 0 → a < b → a + p ≤ b
step_fits a b p hp ha hb h = omega (
  arith,
  next_multiple (a / p) (b / p) p (omega (arith, div-add-mod' a p, div-add-mod' b p)),
  div-add-mod' a p,
  div-add-mod' b p,
)

pub step_aligned : (a p : ℕ) → 0 < p → a % p ≡ 0 → (a + p) % p ≡ 0
step_aligned a p hp ha = grind (arith)

-- The chunk after a page of it.
pub taken-IsChunk :
    (page_size : ℕ) (chunk : Chunk)
    → 0 < page_size
    → IsChunk page_size chunk
    → chunk.rower < chunk.size
    → IsChunk page_size (record chunk { rower = chunk.rower + chunk.page_size })
taken-IsChunk page_size chunk h is more =
    let fits = step_fits chunk.rower chunk.size page_size h is.aligned is.whole more in
    record {
      same = is.same;
      whole = is.whole;
      aligned = rw is.same (step_aligned chunk.rower page_size h is.aligned);
      bound = rw is.same fits;
      fresh = λ x above below. is.fresh x (omega arith) below;
    }

-- The last chunk with its next page taken.
abbrev pub taken : ℕ → Allocator → Allocator
taken last allocator =
    set_chunk last
      (record (allocator.chunks last) {
        rower = (allocator.chunks last).rower + (allocator.chunks last).page_size;
      })
      allocator

pub alloc_back-more :
    (allocator : Allocator) (last : ℕ)
    → allocator.count ≡ suc last
    → (allocator.chunks last).rower < (allocator.chunks last).size
    → alloc_back allocator ≡ (some (allocator.chunks last).rower, taken last allocator)
unfolding alloc_back chunk_alloc_page set_chunk
alloc_back-more allocator last e more =
    let chunk = allocator.chunks last in
    let index : allocator.count - 1 ≡ last = omega arith in
    rw (index, lt→ltb chunk.rower chunk.size more) refl

abbrev pub without_page : Allocator → Option ℕ × Allocator
without_page allocator = (none, allocator)

pub alloc_back-full :
    (allocator : Allocator) (last : ℕ)
    → allocator.count ≡ suc last
    → ltb (allocator.chunks last).rower (allocator.chunks last).size ≡ false
    → alloc_back allocator ≡ (none, allocator)
unfolding alloc_back chunk_alloc_page set_chunk
alloc_back-full allocator last e full =
    let index : allocator.count - 1 ≡ last = omega arith in
    rw (index, full) (ap without_page (set_chunk_self last allocator))

pub emplaced-count :
    (allocator : Allocator) (chunk : Chunk)
    → (emplace_back chunk allocator).count ≡ suc allocator.count
unfolding emplace_back set_chunk
emplaced-count allocator chunk = refl

pub emplaced-page_size :
    (allocator : Allocator) (chunk : Chunk)
    → (emplace_back chunk allocator).page_size ≡ allocator.page_size
unfolding emplace_back set_chunk
emplaced-page_size allocator chunk = refl

pub emplaced-last :
    (allocator : Allocator) (chunk : Chunk)
    → (emplace_back chunk allocator).chunks allocator.count ≡ chunk
unfolding emplace_back set_chunk
emplaced-last allocator chunk = rw ((==_iff allocator.count allocator.count).1 refl) refl

pub emplaced-before :
    (allocator : Allocator) (chunk : Chunk) (i : ℕ)
    → i < allocator.count
    → (emplace_back chunk allocator).chunks i ≡ allocator.chunks i
unfolding emplace_back set_chunk
emplaced-before allocator chunk i below = ground arith

pub not_zero : (n : ℕ) → n == 0 ≡ false → n ≡ suc (n - 1)
not_zero n h = ground arith

pub below_last : (i n : ℕ) → i < suc n → i == n ≡ false → i < n
below_last i n h differs = ground arith
