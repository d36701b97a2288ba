-- ===== src/Tests/Programs.antt =====
-- Encoded instructions on a hart that stands at them.
use besm.Prelude.{ℕ, ◌+◌, ◌-◌, ◌%◌, ◌^◌, ltb, if◌then◌else◌, ◌≡◌, refl, arith}
use besm.Decoder.{parse}
use besm.Decoder.Encoding.{ImmediateOp, encode_immediate}
use besm.Gprf
use besm.Hart.{Hart, read_register, write_back}
use besm.Hart.Arithmetic.{exec_addiw}
use besm.Hart.Programs.{addiw_lem}
use besm.Tests.Hart.{hart}

-- The test hart before the instruction that a word encodes.
abbrev at : ℕ → Hart ℕ
at word = record hart {
  bb_cache = record hart.bb_cache {
    bbs = λ block. record { instrs = λ i. parse word; pc = 0x80000040 };
  };
}

addiw_lem_example :
    exec_addiw (at (encode_immediate ImmediateOp.addiw 5 6 0xFFF))
    ≡ write_back
        ((read_register 6 hart + (if ltb 0xFFF (2 ^ 11) then 0xFFF else 0xFFF + 2 ^ 64 - 2 ^ 12))
          % 2 ^ 32)
        (at (encode_immediate ImmediateOp.addiw 5 6 0xFFF))
addiw_lem_example =
    addiw_lem 5 6 0xFFF (at (encode_immediate ImmediateOp.addiw 5 6 0xFFF)) (omega arith)
      (omega arith) (omega arith) refl
