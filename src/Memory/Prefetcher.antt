-- ===== src/Memory/Prefetcher.antt =====
-- include/besm-666/memory/prefetcher.hpp and src/memory/prefetcher.cpp: the prefetcher, and the
-- memory as the hart sees it.
use besm.Prelude.{ℕ, ◌+◌, ◌-◌, ◌*◌, ◌/◌, ◌%◌, ◌^◌, ltb, ◌&&◌, Bool, if◌then◌else◌}
use besm.Memory.Bytes.{read_le}
use besm.Memory.Outcome.{Outcome, done, undefined, result, ◌>>=◌}
use besm.Memory.Allocator.{Host, null, inside}
use besm.Memory.PhysMem.{PhysMem, Area}
use besm.Memory.Mmu
use besm.Hart.{Platform}

-- `saved_` is a host address; the other two are `start_` and `len_`.
pub record Prefetcher : Type 0 where
  pub saved : Area
  pub start : ℕ
  pub len : ℕ

-- The MMU's memory and the prefetcher, which is built on the MMU.
pub record Memory : Type 0 where
  pub phys : PhysMem
  pub prefetcher : Prefetcher

-- `Prefetcher(mmu)`
unfoldable pub new : PhysMem → Memory
new phys = record {
  phys = phys;
  prefetcher = record {
    saved = record { device = 0; pointer = null; size = 0 };
    start = 2 ^ 64 - 1;
    len = 0;
  };
}

-- A word through a host address, some bytes behind it.
abbrev pub word_at : ℕ → Area → PhysMem → Outcome ℕ
word_at behind area mem = elim area.pointer [
  | null ↦ undefined
  | inside nth place ↦
      done (read_le 4 (place + behind) ((mem.rams area.device).allocator.chunks nth).bytes)
]

-- The address was already loaded.
unfoldable pub is_saved : Prefetcher → ℕ → Bool
is_saved prefetcher vaddress =
    ltb prefetcher.start vaddress && ltb vaddress ((prefetcher.start + prefetcher.len) % 2 ^ 64)

abbrev pub with_memory {ℓ} : {A : Type ℓ} → Memory → Outcome A → Outcome (A × Memory)
with_memory mem outcome = outcome >>= (λ value. done (value, mem))

-- A host address that the MMU found is saved; where there is none, the MMU loads.
unfoldable pub save_or_load : ℕ → Prefetcher → Area × PhysMem → Outcome (ℕ × Memory)
save_or_load vaddress prefetcher (area, phys) =
    if ltb 0 area.size
    then with_memory
        (record {
          phys = phys;
          prefetcher = record { saved = area; start = vaddress; len = area.size };
        })
        (word_at 0 area phys)
    else Mmu.load 4 phys vaddress
      >>= (λ (value, later). done (value, record { phys = later; prefetcher = prefetcher }))

-- `Prefetcher::loadWord`
unfoldable pub load_word : Memory → ℕ → Outcome (ℕ × Memory)
load_word mem vaddress =
    let prefetcher = mem.prefetcher in
    if is_saved prefetcher vaddress
    then with_memory mem (word_at ((vaddress - prefetcher.start) / 4 * 4) prefetcher.saved mem.phys)
    else Mmu.get_host_address mem.phys vaddress >>= save_or_load vaddress prefetcher

-- The MMU's loads and stores.
unfoldable pub load : ℕ → Memory → ℕ → Outcome (ℕ × Memory)
load n mem address =
    Mmu.load n mem.phys address >>= (λ (value, later). done (value, record mem { phys = later }))

unfoldable pub store : Host → ℕ → Memory → ℕ → ℕ → Outcome Memory
store host n mem address value =
    Mmu.store host n mem.phys address value >>= (λ later. done (record mem { phys = later }))

-- What the hart runs on, over what the compiler does with wide shifts.
unfoldable pub platform : Host → (ℕ → ℕ → ℕ) → (ℕ → ℕ → ℕ) → (ℕ → ℕ → ℕ) → Platform Memory
platform host wide_shift_left wide_shift_right wide_shift_signed = record {
  load = λ n address mem. result (load n mem address);
  store = λ n address value mem. result (store host n mem address value);
  fetch = λ address mem. result (load_word mem address);
  wide_shift_left = wide_shift_left;
  wide_shift_right = wide_shift_right;
  wide_shift_signed = wide_shift_signed;
}
