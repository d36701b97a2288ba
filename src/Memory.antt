-- ===== src/Memory.antt =====
-- src/memory: the memory system, from the bytes of the host up to the MMU and the prefetcher.
pub mod Bytes
pub mod Sizes
pub mod Allocator
pub mod Pages
pub mod Given
pub mod Outcome
pub mod Ram
pub mod View
pub mod Touch
pub mod Stores
pub mod Stored
pub mod Created
pub mod LoadStore
pub mod Range
pub mod PhysMem
pub mod Lookup
pub mod Physical
pub mod Writes
pub mod Builder
pub mod Area
pub mod Areas
pub mod Copies
pub mod Mmu
pub mod Prefetcher
pub mod Linked
pub mod Fetched
pub mod Refined
pub mod Accesses
pub mod Loader
pub mod Loads
pub mod Insertion
pub mod Mapping
pub mod Mapped
