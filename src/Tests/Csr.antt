-- ===== src/Tests/Csr.antt =====
-- src/exec/csrf.cpp at the manual's masks and a fresh file.
use besm.Prelude.{◌-◌, ◌^◌, bit_or, bit_and, ◌≡◌, refl, arith}
use besm.Csr.Registers.{Encoding, IsStandard}
use besm.Csr.File.{Csrf, write, set_bits, clear_bits}
use besm.Csr.Access.{IsReady, known_registers, allowed, writers_lem}

abbrev pub enc : Encoding
enc = record {
  mstatus_sie = 0x2;
  mstatus_mie = 0x8;
  mstatus_spie = 0x20;
  mstatus_mpie = 0x80;
  mstatus_spp = 0x100;
  mstatus_mpp = 0x1800;
}

pub enc-IsStandard : IsStandard enc
enc-IsStandard = record { sie = refl; mie = refl; spie = refl; mpie = refl; spp = refl; mpp = refl }

abbrev file : Csrf
file = record { privillege = 3; registers = known_registers; value = λ name. 0x1808 }

file-IsReady : IsReady file
file-IsReady = record { registers = refl; words = λ name. omega arith }

writers_lem_example :
    (write enc 0x305 0x80000001 file ≡ allowed 0x305 (λ old. 0x80000001) file)
    × (set_bits enc 0x305 0x80000001 file ≡ allowed 0x305 (λ old. bit_or old 0x80000001) file)
    × (clear_bits enc 0x305 0x80000001 file
        ≡ allowed 0x305 (λ old. bit_and old (2 ^ 64 - 1 - 0x80000001)) file)
writers_lem_example =
    writers_lem enc enc-IsStandard 0x305 0x80000001 file file-IsReady (omega arith)
