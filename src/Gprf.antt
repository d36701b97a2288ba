-- ===== src/Gprf.antt =====
-- include/besm-666/exec/gprf.hpp: x0 to x31 and the program counter, by their number.
use besm.Prelude.{ℕ, ◌==◌, if◌then◌else◌}

abbrev pub x0 : ℕ
x0 = 0

abbrev pub pc : ℕ
pc = 32

abbrev pub size : ℕ
size = 33

-- The 33 cells. What an uninitialised cell holds is not known.
abbrev pub Gprf : Type 0
Gprf = ℕ → ℕ

-- `GPRF()` over the cells as they were found.
unfoldable pub new : (ℕ → ℕ) → Gprf
new cells reg_id = if reg_id == pc then 0 else cells reg_id

unfoldable pub write : ℕ → ℕ → Gprf → Gprf
write reg_id value registers other = if other == reg_id then value else registers other

unfoldable pub read : ℕ → Gprf → ℕ
read reg_id registers = if reg_id == x0 then 0 else registers reg_id
