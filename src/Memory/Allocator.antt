-- ===== src/Memory/Allocator.antt =====
-- src/memory/ram.cpp: `RAMPageAllocator` and its chunks.
use besm.Prelude.{ℕ, suc, ◌+◌, ◌-◌, ◌==◌, ltb, Option, none, some, if◌then◌else◌}
use besm.Memory.Bytes.{Bytes}
use besm.Memory.Sizes.{nearest_2pow_divident}

-- What the host gives: the size of its pages, and the bytes that the n-th `mmap` of a size returns
-- (`none` is the null pointer).
pub record Host : Type 0 where
  pub page_size : ℕ
  pub mmap : ℕ → ℕ → Option Bytes

-- A pointer into the bytes of a chunk.
pub data Pointer : Type 0 where
  null : Pointer
  inside : ℕ → ℕ → Pointer

-- `RAMPageAllocator::Chunk`; `rower` is the offset of `rower_` from `data_`.
pub record Chunk : Type 0 where
  pub bytes : Bytes
  pub rower : ℕ
  pub size : ℕ
  pub page_size : ℕ

pub record Allocator : Type 0 where
  pub chunk_size : ℕ
  pub page_size : ℕ
  pub chunks : ℕ → Chunk
  pub count : ℕ

-- `Chunk(pageSize, chunkSize)` after `mmap`; `none` is `std::bad_alloc`.
unfoldable pub mapped_chunk : ℕ → ℕ → Option Bytes → Option Chunk
mapped_chunk page_size size none = none
mapped_chunk page_size size (some bytes) =
    some (record { bytes = bytes; rower = 0; size = size; page_size = page_size })

-- `Chunk(pageSize, chunkSize)`
unfoldable pub new_chunk : Host → ℕ → ℕ → ℕ → Option Chunk
new_chunk host nth page_size chunk_size =
    let size = nearest_2pow_divident chunk_size host.page_size in
    mapped_chunk page_size size (host.mmap nth size)

-- `Chunk::allocPage`; `none` is the null pointer.
unfoldable pub chunk_alloc_page : Chunk → Option ℕ × Chunk
chunk_alloc_page chunk =
    if ltb chunk.rower chunk.size
    then (some chunk.rower, record chunk { rower = chunk.rower + chunk.page_size })
    else (none, chunk)

unfoldable pub new : ℕ → ℕ → (ℕ → Chunk) → Allocator
new page_size chunk_size chunks = record {
  chunk_size = chunk_size;
  page_size = page_size;
  chunks = chunks;
  count = 0;
}

-- A chunk without bytes, as `Chunk(Chunk &&)` leaves the one that it takes from.
unfoldable pub empty_chunk : Chunk
empty_chunk = record { bytes = λ x. 0; rower = 0; size = 0; page_size = 0 }

-- `Chunk(Chunk &&other)`: the new chunk, and what is left of `other`.
unfoldable pub move_chunk : Chunk → Chunk × Chunk
move_chunk other = (other, empty_chunk)

-- `RAMPageAllocator(RAMPageAllocator &&other)`: the chunks go over, the sizes are copied.
unfoldable pub move_allocator : Allocator → Allocator × Allocator
move_allocator other = (other, record other { count = 0 })

unfoldable pub set_chunk : ℕ → Chunk → Allocator → Allocator
set_chunk nth chunk allocator = record allocator {
  chunks = λ i. if i == nth then chunk else allocator.chunks i;
}

-- `chunks_.back().allocPage()`
unfoldable pub alloc_back : Allocator → Option ℕ × Allocator
alloc_back allocator =
    let back = allocator.count - 1 in
    let (page, chunk) = chunk_alloc_page (allocator.chunks back) in
    (page, set_chunk back chunk allocator)

-- `chunks_.emplace_back(pageSize_, chunkSize_)`
unfoldable pub emplace_back : Chunk → Allocator → Allocator
emplace_back chunk allocator = record (set_chunk allocator.count chunk allocator) {
  count = suc allocator.count;
}

abbrev pub handed : ℕ → Option ℕ × Allocator → Pointer × Allocator
handed nth (none, allocator) = (null, allocator)
handed nth (some offset, allocator) = (inside nth offset, allocator)

-- `allocPage` where the last chunk has no page, and there is a new one.
unfoldable pub grow_with : Allocator → Option Chunk → Option (Pointer × Allocator)
grow_with allocator none = none
grow_with allocator (some chunk) =
    some (handed allocator.count (alloc_back (emplace_back chunk allocator)))

module _ (host : Host) where
  unfoldable pub grow : Allocator → Option (Pointer × Allocator)
  grow allocator =
      grow_with allocator (new_chunk host allocator.count allocator.page_size allocator.chunk_size)

  unfoldable pub take_or_grow : Allocator → Option ℕ × Allocator → Option (Pointer × Allocator)
  take_or_grow allocator (none, tried) = grow tried
  take_or_grow allocator (some offset, tried) = some (inside (allocator.count - 1) offset, tried)

  -- `RAMPageAllocator::allocPage`; `none` is `std::bad_alloc`.
  unfoldable pub alloc_page : Allocator → Option (Pointer × Allocator)
  alloc_page allocator =
      if allocator.count == 0 then grow allocator else take_or_grow allocator (alloc_back allocator)
