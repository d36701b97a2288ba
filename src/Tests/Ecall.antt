-- ===== src/Tests/Ecall.antt =====
-- ECALL in user mode, with the trap entry's block assembled from a memory of ECALLs.
use besm.Prelude.{ℕ, Bool, true, false, Option, none, some, ◌≡◌, refl, inl}
use besm.Csr.Registers.{RegisterName}
use besm.Hart.{Hart, next, fetch_bb, load_instr, read_register}
use besm.Hart.Run.{advance}
use besm.Hart.Return.{trap_entry}
use besm.Block.Assembly.{IsFinished}
use besm.Gprf
use besm.Hart.System.{raise_exception, exec_ecall, trap, save_status, trap_target}
use besm.Hart.Ecall.{Skips, ecall-Skips}
use besm.Tests.Csr.{enc, enc-IsStandard}
use besm.Tests.Hart.{platform, hart, hart-IsSteady, hart-IsSound}

abbrev is_some : Option (Hart ℕ) → Bool
is_some none = false
is_some (some h) = true

abbrev value : Option (Hart ℕ) → Hart ℕ
value none = hart
value (some h) = h

some_value : (o : Option (Hart ℕ)) → is_some o ≡ true → o ≡ some (value o)
some_value none e = cc
some_value (some h) e = refl

abbrev entered : Hart ℕ
entered = value (raise_exception platform enc 8 hart)

arrives : is_some (raise_exception platform enc 8 hart) ≡ true
unfolding raise_exception fetch_bb trap save_status besm.Block.new besm.Gprf.read besm.Gprf.write
    trap_target besm.BitMagic.extract_masked besm.Block.append besm.Instruction.is_jump
arrives = refl

ecall-Skips_example :
    (exec_ecall platform enc hart ≡ next entered)
    × (entered.csrf.privillege ≡ 3)
    × (entered.csrf.value RegisterName.mcause ≡ 8)
    × (read_register Gprf.pc entered ≡ trap_entry 0x1009 8)
    × IsFinished
        (load_instr platform)
        (trap_entry 0x1009 8)
        (entered.bb_cache.bbs entered.current.0)
    × ((advance entered).current ≡ (entered.current.0, 1))
    × Skips platform enc enc-IsStandard (trap_entry 0x1009 8) (advance entered)
ecall-Skips_example =
    ecall-Skips platform enc enc-IsStandard hart entered hart-IsSteady hart-IsSound (inl refl)
      (some_value (raise_exception platform enc 8 hart) arrives)
