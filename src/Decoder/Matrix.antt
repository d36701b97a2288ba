-- ===== src/Decoder/Matrix.antt =====
-- include/besm-666/autogen/operations-matrix.hpp: the table from opcode and func3 to a format and
-- an operation.
use besm.Prelude.{ℕ, ◌==◌, if◌then◌else◌, List, [], ◌∷◌, get_or, replicate}
use besm.Instruction.{
  InstructionOp, inv_op, lui, auipc, jal, jalr, beq, bne, blt, bge, bltu, bgeu, lb, lh, lw, lbu,
  lhu, sb, sh, sw, addi, slti, sltiu, xori, ori, andi, pause, lwu, ld, sd, slli, srai, addiw, slliw,
  csrrw, csrrs, csrrc, csrrwi, csrrsi, csrrci,
}

pub data Format : Type 0 where
  illegal r i s b u j : Format

pub record Cell : Type 0 where
  pub format : Format
  pub operation : InstructionOp

abbrev cell : Format → InstructionOp → Cell
cell f op = record { format = f; operation = op }

-- opcode 0b0000011
unfoldable pub row_load : List Cell
row_load =
    cell Format.i lb
    ∷ cell Format.i lh
    ∷ cell Format.i lw
    ∷ cell Format.i ld
    ∷ cell Format.i lbu
    ∷ cell Format.i lhu
    ∷ cell Format.i lwu
    ∷ cell Format.i inv_op
    ∷ []

-- opcode 0b0001111
unfoldable pub row_misc_mem : List Cell
row_misc_mem =
    cell Format.i pause
    ∷ cell Format.i inv_op
    ∷ cell Format.i inv_op
    ∷ cell Format.i inv_op
    ∷ cell Format.i inv_op
    ∷ cell Format.i inv_op
    ∷ cell Format.i inv_op
    ∷ cell Format.i inv_op
    ∷ []

-- opcode 0b0010011
unfoldable pub row_op_imm : List Cell
row_op_imm =
    cell Format.i addi
    ∷ cell Format.i slli
    ∷ cell Format.i slti
    ∷ cell Format.i sltiu
    ∷ cell Format.i xori
    ∷ cell Format.i srai
    ∷ cell Format.i ori
    ∷ cell Format.i andi
    ∷ []

-- opcode 0b0010111
unfoldable pub row_auipc : List Cell
row_auipc =
    cell Format.u auipc
    ∷ cell Format.u auipc
    ∷ cell Format.u auipc
    ∷ cell Format.u auipc
    ∷ cell Format.u auipc
    ∷ cell Format.u auipc
    ∷ cell Format.u auipc
    ∷ cell Format.u auipc
    ∷ []

-- opcode 0b0011011
unfoldable pub row_op_imm_32 : List Cell
row_op_imm_32 =
    cell Format.i addiw
    ∷ cell Format.i slliw
    ∷ cell Format.i inv_op
    ∷ cell Format.i inv_op
    ∷ cell Format.i inv_op
    ∷ cell Format.i inv_op
    ∷ cell Format.i inv_op
    ∷ cell Format.i inv_op
    ∷ []

-- opcode 0b0100011
unfoldable pub row_store : List Cell
row_store =
    cell Format.s sb
    ∷ cell Format.s sh
    ∷ cell Format.s sw
    ∷ cell Format.s sd
    ∷ cell Format.s inv_op
    ∷ cell Format.s inv_op
    ∷ cell Format.s inv_op
    ∷ cell Format.s inv_op
    ∷ []

-- opcode 0b0110011
unfoldable pub row_op : List Cell
row_op =
    cell Format.r inv_op
    ∷ cell Format.r inv_op
    ∷ cell Format.r inv_op
    ∷ cell Format.r inv_op
    ∷ cell Format.r inv_op
    ∷ cell Format.r inv_op
    ∷ cell Format.r inv_op
    ∷ cell Format.r inv_op
    ∷ []

-- opcode 0b0110111
unfoldable pub row_lui : List Cell
row_lui =
    cell Format.u lui
    ∷ cell Format.u lui
    ∷ cell Format.u lui
    ∷ cell Format.u lui
    ∷ cell Format.u lui
    ∷ cell Format.u lui
    ∷ cell Format.u lui
    ∷ cell Format.u lui
    ∷ []

-- opcode 0b0111011
unfoldable pub row_op_32 : List Cell
row_op_32 =
    cell Format.r inv_op
    ∷ cell Format.r inv_op
    ∷ cell Format.r inv_op
    ∷ cell Format.r inv_op
    ∷ cell Format.r inv_op
    ∷ cell Format.r inv_op
    ∷ cell Format.r inv_op
    ∷ cell Format.r inv_op
    ∷ []

-- opcode 0b1100011
unfoldable pub row_branch : List Cell
row_branch =
    cell Format.b beq
    ∷ cell Format.b bne
    ∷ cell Format.b inv_op
    ∷ cell Format.b inv_op
    ∷ cell Format.b blt
    ∷ cell Format.b bge
    ∷ cell Format.b bltu
    ∷ cell Format.b bgeu
    ∷ []

-- opcode 0b1100111
unfoldable pub row_jalr : List Cell
row_jalr =
    cell Format.i jalr
    ∷ cell Format.i inv_op
    ∷ cell Format.i inv_op
    ∷ cell Format.i inv_op
    ∷ cell Format.i inv_op
    ∷ cell Format.i inv_op
    ∷ cell Format.i inv_op
    ∷ cell Format.i inv_op
    ∷ []

-- opcode 0b1101111
unfoldable pub row_jal : List Cell
row_jal =
    cell Format.j jal
    ∷ cell Format.j jal
    ∷ cell Format.j jal
    ∷ cell Format.j jal
    ∷ cell Format.j jal
    ∷ cell Format.j jal
    ∷ cell Format.j jal
    ∷ cell Format.j jal
    ∷ []

-- opcode 0b1110011
unfoldable pub row_system : List Cell
row_system =
    cell Format.i inv_op
    ∷ cell Format.i csrrw
    ∷ cell Format.i csrrs
    ∷ cell Format.i csrrc
    ∷ cell Format.i inv_op
    ∷ cell Format.i csrrwi
    ∷ cell Format.i csrrsi
    ∷ cell Format.i csrrci
    ∷ []

-- The rows of all other opcodes are alike.
unfoldable pub row_illegal : List Cell
row_illegal = replicate 8 (cell Format.illegal inv_op)

-- The 128 rows, chosen by the opcode.
unfoldable pub row : ℕ → List Cell
unfolding row_illegal row_load row_misc_mem row_op_imm row_auipc row_op_imm_32 row_store row_op
    row_lui row_op_32 row_branch row_jalr row_jal row_system
row opcode =
    if opcode == 0b0000011
    then row_load
    else if opcode == 0b0001111
    then row_misc_mem
    else if opcode == 0b0010011
    then row_op_imm
    else if opcode == 0b0010111
    then row_auipc
    else if opcode == 0b0011011
    then row_op_imm_32
    else if opcode == 0b0100011
    then row_store
    else if opcode == 0b0110011
    then row_op
    else if opcode == 0b0110111
    then row_lui
    else if opcode == 0b0111011
    then row_op_32
    else if opcode == 0b1100011
    then row_branch
    else if opcode == 0b1100111
    then row_jalr
    else if opcode == 0b1101111
    then row_jal
    else if opcode == 0b1110011
    then row_system
    else row_illegal

-- `INSTR_WHO[opcode][func3]`
unfoldable pub instr_who : ℕ → ℕ → Cell
unfolding row
instr_who opcode func3 = get_or (row opcode) func3 (cell Format.illegal inv_op)
