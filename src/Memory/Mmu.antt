-- ===== src/Memory/Mmu.antt =====
-- include/besm-666/memory/mmu.hpp and src/memory/mmu.cpp: the MMU, which translates nothing yet.
use besm.Prelude.{ℕ, ◌==◌, Bool-cases, inl, inr, ◌≡◌, refl, if◌then◌else◌}
use besm.Memory.Outcome.{Outcome}
use besm.Memory.Allocator.{Host}
use besm.Memory.PhysMem
use besm.Memory.PhysMem.{PhysMem, Area}

unfoldable pub translate_address : ℕ → ℕ
translate_address address = address

-- `loadByte`, which passes its own address on, `loadHWord`, `loadWord` and `loadDWord`.
unfoldable pub load : ℕ → PhysMem → ℕ → Outcome (ℕ × PhysMem)
load n mem address =
    let paddr = translate_address address in PhysMem.load n mem (if n == 1 then address else paddr)

-- `storeByte`, `storeHWord`, `storeWord` and `storeDWord`.
unfoldable pub store : Host → ℕ → PhysMem → ℕ → ℕ → Outcome PhysMem
store host n mem address value = PhysMem.store host n mem (translate_address address) value

-- `getHostAddress`
unfoldable pub get_host_address : PhysMem → ℕ → Outcome (Area × PhysMem)
get_host_address mem vaddress = PhysMem.get_host_address mem (translate_address vaddress)

-- The addresses are physical.
pub load_lem :
    (n : ℕ) (mem : PhysMem) (address : ℕ) → load n mem address ≡ PhysMem.load n mem address
unfolding load translate_address
load_lem n mem address = elim (Bool-cases (n == 1)) [
  | inl byte ↦ rw byte refl
  | inr wide ↦ rw wide refl
]
