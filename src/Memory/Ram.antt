-- ===== src/Memory/Ram.antt =====
-- include/besm-666/memory/ram.hpp and src/memory/ram.cpp: the class `RAM`.
use besm.Prelude.{ℕ, ◌+◌, ◌-◌, ◌/◌, ◌%◌, ◌==◌, leb, not, ◌||◌, Option, none, some, if◌then◌else◌}
use besm.Memory.Bytes.{Bytes, bytes_of, read_le, put}
use besm.Memory.Sizes.{is_2pow}
use besm.Memory.Outcome.{
  Outcome, done, invalid_address, unaligned, invalid_argument, bad_alloc, undefined,
}
use besm.Memory.Allocator
use besm.Memory.Allocator.{
  Host, Pointer, null, inside, Chunk, Allocator, move_allocator, alloc_page, set_chunk,
}

-- `pagemap` holds the pages by their id.
pub record Ram : Type 0 where
  pub ram_size : ℕ
  pub page_size : ℕ
  pub allocator : Allocator
  pub pagemap : ℕ → Option Pointer

-- `RAM(ramSize, pageSize, chunkSize)` over an empty vector of chunks.
unfoldable pub new : ℕ → ℕ → ℕ → (ℕ → Chunk) → Outcome Ram
new ram_size page_size chunk_size chunks =
    if ram_size == 0
    then invalid_argument
    else if (page_size == 0) || not (is_2pow page_size)
    then invalid_argument
    else if chunk_size / page_size == 0
    then invalid_argument
    else done (record {
      ram_size = ram_size;
      page_size = page_size;
      allocator = Allocator.new page_size chunk_size chunks;
      pagemap = λ id. none;
    })

-- `RAM(RAM &&other)`: the new RAM.
unfoldable pub move_ram : Ram → Ram
move_ram other =
    let (allocator, left) = move_allocator other.allocator in record other { allocator = allocator }

-- `validateAddressBounds`, which no other operation calls.
unfoldable pub validate_address_bounds : Ram → ℕ → Outcome {0} Unit
validate_address_bounds ram address = if leb ram.ram_size address then invalid_address else done tt

abbrev pub get_size : Ram → ℕ
get_size ram = ram.ram_size

abbrev pub get_page_id : Ram → ℕ → ℕ
get_page_id ram address = address / ram.page_size

abbrev pub get_page_offset : Ram → ℕ → ℕ
get_page_offset ram address = address % ram.page_size

abbrev pub found : Option Pointer → Pointer
found none = null
found (some mem) = mem

-- `getPageAddress`
unfoldable pub get_page_address : Ram → ℕ → Pointer
get_page_address ram address = found (ram.pagemap (get_page_id ram address))

-- A pointer moved on; a null pointer is not.
abbrev pub advance : ℕ → Pointer → Pointer
advance offset null = null
advance offset (inside nth place) = inside nth (place + offset)

abbrev pub host_area : ℕ → ℕ → Pointer → Pointer × ℕ
host_area page_size offset null = (null, 0)
host_area page_size offset (inside nth place) = (inside nth (place + offset), page_size - offset)

-- `getHostAddress`
unfoldable pub get_host_address : Ram → ℕ → Pointer × ℕ
get_host_address ram address =
    host_area ram.page_size (get_page_offset ram address) (get_page_address ram address)

-- The page is new: `pagemap_.insert(newPage)`.
unfoldable pub insert_page : ℕ → Ram → Option (Pointer × Allocator) → Option (Pointer × Ram)
insert_page page_id ram none = none
insert_page page_id ram (some (mem, allocator)) = some (
  mem,
  record ram {
    allocator = allocator;
    pagemap = λ id. if id == page_id then some mem else ram.pagemap id;
  },
)

unfoldable pub found_or_new : Host → ℕ → Ram → Option Pointer → Option (Pointer × Ram)
found_or_new host page_id ram none = insert_page page_id ram (alloc_page host ram.allocator)
found_or_new host page_id ram (some mem) = some (mem, ram)

-- `touchPageAddress`; `none` is `std::bad_alloc`.
unfoldable pub touch_page_address : Host → Ram → ℕ → Option (Pointer × Ram)
touch_page_address host ram address =
    found_or_new host (get_page_id ram address) ram (ram.pagemap (get_page_id ram address))

abbrev pub host_place : ℕ → ℕ → Option (Pointer × Ram) → Option ((Pointer × ℕ) × Ram)
host_place page_size offset none = none
host_place page_size offset (some (mem, touched)) =
    some ((advance offset mem, page_size - offset), touched)

-- `touchHostAddress`
unfoldable pub touch_host_address : Host → Ram → ℕ → Option ((Pointer × ℕ) × Ram)
touch_host_address host ram address =
    host_place ram.page_size (get_page_offset ram address) (touch_page_address host ram address)

-- `*reinterpret_cast<DataType const *>(hostAddress)`, for a type of `n` bytes.
abbrev pub read_through : ℕ → Ram → Pointer × ℕ → ℕ
read_through n ram (null, size) = 0
read_through n ram (inside nth place, size) = read_le n place (ram.allocator.chunks nth).bytes

unfoldable pub write_bytes : ℕ → ℕ → ℕ → Bytes → Ram → Ram
write_bytes n nth place source ram =
    let chunk = ram.allocator.chunks nth in
    record ram {
      allocator =
          set_chunk nth (record chunk { bytes = put n place source chunk.bytes }) ram.allocator;
    }

unfoldable pub write_through : ℕ → Bytes → Option ((Pointer × ℕ) × Ram) → Outcome Ram
write_through n source none = bad_alloc
write_through n source (some ((null, size), ram)) = undefined
write_through n source (some ((inside nth place, size), ram)) =
    done (write_bytes n nth place source ram)

-- `load<DataType>`
unfoldable pub load : ℕ → Ram → ℕ → Outcome ℕ
load n ram address =
    if address % n == 0 then done (read_through n ram (get_host_address ram address)) else unaligned

-- `store<DataType>`
unfoldable pub store : Host → ℕ → Ram → ℕ → ℕ → Outcome Ram
store host n ram address value =
    if address % n == 0
    then write_through n (bytes_of value) (touch_host_address host ram address)
    else unaligned
