-- ===== src/Tests/Hart.antt =====
-- src/sim/hart.cpp on a hart in user mode.
use besm.Prelude.{ℕ, suc, inl, ◌%◌, ◌==◌, if◌then◌else◌, [], some, ◌≡◌, refl, arith}
use besm.Instruction.{InstructionOp, only_operation}
use besm.Gprf
use besm.Csr.Registers.{RegisterName}
use besm.Block.{new}
use besm.Hart.{Hart, Platform, next, dispatch, read_register, fetch_bb}
use besm.Hart.Run.{handler, call_handler, run_from, run}
use besm.Hart.Frame.{Kept, handler-Kept}
use besm.Hart.Fetch.{IsSteady, Entered, fetch_bb_lem, new-IsSteady}
use besm.Hart.BlockEnd.{Starts, bb_end-Starts}
use besm.Hart.Runs.{Passes, ArePlain, run_from-Passes}
use besm.Hart.Trap.{trapped_status, resumed_status}
use besm.Hart.Return.{IsSound, trap_entry, trap_lem, trap-mret}
use besm.Hart.Start.{Boots, new-Boots}
use besm.Hart
use besm.Hart.System.{trap, exec_mret}
use besm.Tests.Csr.{enc, enc-IsStandard}

-- A memory that holds ECALL everywhere.
abbrev pub platform : Platform ℕ
platform = record {
  load = λ bytes address memory. some (0, memory);
  store = λ bytes address value memory. some memory;
  fetch = λ pc memory. some (0x73, suc memory);
  wide_shift_left = λ a k. 0;
  wide_shift_right = λ a k. 0;
  wide_shift_signed = λ a k. 0;
}

abbrev pub hart : Hart ℕ
hart = record {
  bb_cache = new (λ block place. only_operation InstructionOp.inv_op);
  current = (0, 0);
  memory = 0;
  gprf = λ id. if id == 32 then 0x80000040 else id;
  csrf = record { privillege = 0; registers = []; value = λ name. 0x1009 };
  events = [];
  instrs_executed = 0;
}

pub hart-IsSteady : IsSteady platform hart.bb_cache
hart-IsSteady = new-IsSteady platform (λ block place. only_operation InstructionOp.inv_op)

pub hart-IsSound : IsSound enc enc-IsStandard hart
unfolding Gprf.read
hart-IsSound = record { words = λ name. omega arith; level = omega arith; counter = omega arith }

counter_lem : read_register Gprf.pc hart ≡ 0x80000040
unfolding Gprf.read
counter_lem = refl

-- A hart in a block of one ADD.
abbrev in_block : Hart ℕ
in_block = record hart {
  bb_cache = record hart.bb_cache {
    bbs = λ block. record {
      instrs = λ i.
          if i == 0
          then record { rd = 3; rs1 = 1; rs2 = 2; immidiate = 0; operation = InstructionOp.add }
          else only_operation InstructionOp.bb_end;
      pc = 0x80000040;
    };
  };
}

in_block-ArePlain : ArePlain 1 in_block
unfolding ArePlain
in_block-ArePlain = λ i below. let e : i ≡ 0 = omega arith in rw e refl

-- A hart at a BB_END.
abbrev at_end : Hart ℕ
at_end = record hart {
  bb_cache = record {
    bbs = λ block. record { instrs = λ i. only_operation InstructionOp.bb_end; pc = 1 };
    lru_rowers = λ set. 0;
  };
}

at_end-IsSteady : IsSteady platform at_end.bb_cache
at_end-IsSteady = record { rowers = record { rower = λ set. omega arith }; blocks = λ i. inl refl }

handler-Kept_example : Kept platform in_block (handler platform enc InstructionOp.add in_block)
handler-Kept_example = handler-Kept platform enc InstructionOp.add in_block refl

fetch_bb_lem_example : Entered platform hart (fetch_bb platform hart)
fetch_bb_lem_example =
    fetch_bb_lem platform hart hart-IsSteady hart-IsSound.counter
      (λ e. omega (arith, counter_lem, e))

run_from-Passes_example : Passes platform 1 in_block (run_from platform enc 1 (dispatch in_block))
run_from-Passes_example = run_from-Passes platform enc 1 in_block in_block-ArePlain

bb_end-Starts_example : Starts platform at_end (call_handler platform enc at_end)
bb_end-Starts_example =
    bb_end-Starts platform enc at_end refl at_end-IsSteady hart-IsSound.counter
      (λ e. omega (arith, counter_lem, e))

trap_lem_example :
    ((trap enc 8 hart).csrf.value RegisterName.mstatus ≡ trapped_status 0 0x1009)
    × ((trap enc 8 hart).csrf.value RegisterName.mcause ≡ 8)
    × ((trap enc 8 hart).csrf.value RegisterName.mepc
        ≡ (if read_register Gprf.pc hart % 4 == 0 then read_register Gprf.pc hart else 0x1009))
    × ((trap enc 8 hart).csrf.value RegisterName.mtvec ≡ 0x1009)
    × ((trap enc 8 hart).csrf.privillege ≡ 3)
    × (read_register Gprf.pc (trap enc 8 hart) ≡ trap_entry 0x1009 8)
trap_lem_example = trap_lem enc enc-IsStandard 8 hart hart-IsSound (omega arith)

trap-mret_example :
    (resumed : Hart ℕ) × (exec_mret platform enc (trap enc 8 hart) ≡ next resumed)
    × (resumed.csrf.privillege ≡ 0)
    × (read_register Gprf.pc resumed ≡ read_register Gprf.pc hart)
    × (resumed.csrf.value RegisterName.mstatus ≡ resumed_status 0x1009)
trap-mret_example =
    trap-mret enc enc-IsStandard platform 8 hart (trap enc 8 hart) hart-IsSound (omega arith)
      (omega (arith, counter_lem)) refl

abbrev made : Hart ℕ
made = Hart.new enc (λ id. 7) (λ name. 7) (λ block place. only_operation InstructionOp.addi) 0

new-Boots_example :
    IsSteady platform made.bb_cache
    × IsSound enc enc-IsStandard made
    × Boots platform (run platform enc 0 made)
new-Boots_example =
    new-Boots platform enc enc-IsStandard (λ id. 7) (λ name. 7)
      (λ block place. only_operation InstructionOp.addi) 0
