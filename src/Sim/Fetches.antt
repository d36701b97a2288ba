-- ===== src/Sim/Fetches.antt =====
-- `Hart::assembleBB` over src/memory: the block is decoded from the bytes that the memory holds.
use besm.Prelude.{
  ℕ, zero, suc, ◌+◌, ◌*◌, ◌%◌, ◌^◌, ◌<◌, Option, some, Bool-cases, inl, inr, ◌≡◌, refl, sym, ap,
  ◌∙◌, subst, arith,
}
use besm.Instruction.{Instruction}
use besm.Decoder.{parse}
use besm.Block.{Block, Rebuilder, append, rebuild}
use besm.Block.Assembly.{
  Assembled, assembled, thrown, out_of_fuel, assemble_loop, assemble, IsFinished, Finished,
  assemble-IsFinished,
}
use besm.Hart.{load_instr}
use besm.Memory.Bytes.{Bytes, read_le}
use besm.Memory.Outcome.{
  Outcome, done, unaligned, invalid_address, invalid_argument, mapping_intersection, bad_alloc,
  undefined, result,
}
use besm.Memory.Allocator.{Host}
use besm.Memory.Range.{Range}
use besm.Memory.Physical.{IsAccess}
use besm.Memory.Prefetcher.{Memory, load_word, platform}
use besm.Memory.Fetched.{Fetched, load_word-Fetched}
use besm.Memory.Refined.{Holds, IsLeft, layout-IsAccess}
use besm.Memory.Accesses.{answer_of, bytes_after, Performed, fetched}
use besm.Sim.Transfers.{machine}

-- The instruction that an array of bytes has at an address.
abbrev pub instr_at : Bytes → ℕ → Instruction
instr_at bytes address = parse (read_le 4 address bytes)

-- The prefetcher and the decoder, of an array of bytes.
abbrev pub load_bytes : Bytes → ℕ → Unit {0} → Option (Instruction × Unit {0})
load_bytes bytes address memory = some (instr_at bytes address, tt)

-- A word of a device.
unfoldable pub IsWord : Memory → ℕ → Type 0
IsWord mem address = (range : Range) × (device : ℕ) × IsAccess 4 address mem.phys range device

worded :
    (host : Host) (address : ℕ) (mem : Memory) (bytes : Bytes) (outcome : Outcome (ℕ × Memory))
    → Holds host mem bytes
    → Fetched host address mem.phys outcome
    → (after : Memory) × (result outcome ≡ some (read_le 4 address bytes, after))
      × IsLeft host mem after bytes
unfolding Fetched Performed answer_of bytes_after
worded host address mem bytes (done (word, after)) holds is =
    let (e, left) = fetched host address mem bytes (done (word, after)) holds is in
    (after, ap (λ (value : ℕ). some (value, after)) e, left)
worded host address mem bytes unaligned holds is = absurd is
worded host address mem bytes invalid_address holds is = absurd is
worded host address mem bytes invalid_argument holds is = absurd is
worded host address mem bytes mapping_intersection holds is = absurd is
worded host address mem bytes bad_alloc holds is = absurd is
worded host address mem bytes undefined holds is = absurd is

module _ (host : Host) (shift_left shift_right shift_signed : ℕ → ℕ → ℕ) where
  -- The hart loads the instruction that the bytes have, and leaves them.
  load_instr-Holds :
      (mem : Memory) (bytes : Bytes) (address : ℕ)
      → Holds host mem bytes
      → IsWord mem address
      → (after : Memory) × (load_instr
            (machine host shift_left shift_right shift_signed)
            address
            mem
          ≡ some (instr_at bytes address, after))
        × IsLeft host mem after bytes
  unfolding load_instr machine platform IsWord
  load_instr-Holds mem bytes address holds (range, device, access) =
      let (after, e, is) = worded host address mem bytes (load_word mem address) holds (
        load_word-Fetched host mem address range device holds.valid holds.whole holds.linked
          access) in
      (after, rw e refl, is)

module _ (host : Host) (shift_left shift_right shift_signed : ℕ → ℕ → ℕ) (mem : Memory)
    (bytes : Bytes) where
  -- The hart's block is the one of the bytes.
  unfoldable Same : Assembled Memory → Assembled (Unit {0}) → Type 0
  Same (assembled bb after) (assembled other memory) = (bb ≡ other) × IsLeft host mem after bytes
  Same out_of_fuel out_of_fuel = Unit
  Same _ _ = ⊥

  left-IsWord :
      (later : Memory) (address : ℕ)
      → IsLeft host mem later bytes
      → IsWord mem address
      → IsWord later address
  unfolding IsWord
  left-IsWord later address left (range, device, access) =
      (range, device, layout-IsAccess left.layout access)

  IsLeft-IsLeft :
      (later after : Memory)
      → IsLeft host mem later bytes
      → IsLeft host later after bytes
      → IsLeft host mem after bytes
  IsLeft-IsLeft later after first second = record {
    holds = second.holds;
    layout = record {
      devices = second.layout.devices ∙ first.layout.devices;
      page_size = λ device. second.layout.page_size device ∙ first.layout.page_size device;
    };
  }

  assemble_loop-Same :
      (fuel pc : ℕ) (rebuilder : Rebuilder) (later : Memory)
      → IsLeft host mem later bytes
      → ((i : ℕ) → i < fuel → IsWord mem ((pc + 4 * i) % 2 ^ 64))
      → pc < 2 ^ 64
      → Same
          (assemble_loop
            (load_instr (machine host shift_left shift_right shift_signed))
            fuel
            pc
            rebuilder
            later)
          (assemble_loop (load_bytes bytes) fuel pc rebuilder tt)
  unfolding assemble_loop Same
  assemble_loop-Same zero pc rebuilder later left words below = tt
  assemble_loop-Same (suc fuel) pc rebuilder later left words below =
      let here : IsWord mem pc =
        subst (λ a. IsWord mem a) (start pc below) (words 0 (omega arith)) in
      let (after, e, is) =
        load_instr-Holds host shift_left shift_right shift_signed later bytes pc left.holds
          (left-IsWord later pc left here) in
      let all = IsLeft-IsLeft later after left is in
      let filled = append (instr_at bytes pc) rebuilder in
      elim (Bool-cases filled.0) [
        | inl more ↦
            rw (Same, e, more)
              (assemble_loop-Same fuel ((pc + 4) % 2 ^ 64) filled.1 after all
                (λ i bound. subst (λ a. IsWord mem a) (behind pc i) (words (suc i) (omega arith)))
                (omega arith))
        | inr last ↦ rw (Same, e, last) (refl, all)
      ]
    where
      start : (a : ℕ) → a < 2 ^ 64 → (a + 4 * 0) % 2 ^ 64 ≡ a
      start a p = omega arith

      behind : (a i : ℕ) → (a + 4 * suc i) % 2 ^ 64 ≡ ((a + 4) % 2 ^ 64 + 4 * i) % 2 ^ 64
      behind a i = omega arith

  whole_block :
      (pc : ℕ) (assembly : Assembled Memory) (pure : Assembled (Unit {0}))
      → Same assembly pure
      → Finished (load_bytes bytes) pc pure
      → (block : Block) × (after : Memory) × (assembly ≡ assembled block after)
        × IsLeft host mem after bytes
        × IsFinished (load_bytes bytes) pc block
  unfolding Same Finished
  whole_block pc (assembled bb after) (assembled other memory) (e, left) finished =
      (bb, after, refl, left, subst (λ b. IsFinished (load_bytes bytes) pc b) (sym e) finished)
  whole_block pc (assembled bb after) thrown same finished = absurd same
  whole_block pc (assembled bb after) out_of_fuel same finished = absurd same
  whole_block pc thrown (assembled other memory) same finished = absurd same
  whole_block pc thrown thrown same finished = absurd same
  whole_block pc thrown out_of_fuel same finished = absurd same
  whole_block pc out_of_fuel (assembled other memory) same finished = absurd same
  whole_block pc out_of_fuel thrown same finished = absurd same
  whole_block pc out_of_fuel out_of_fuel same finished = absurd finished

  -- `assembleBB` over the memory system, on a memory in order that holds `bytes`, at an address
  -- from which seven aligned words lie in devices: the loop ends without an exception, the block is
  -- whole, each of its instructions up to its end is the decoding of the word that the bytes have
  -- at its address, and the memory holds the same bytes.
  pub assemble-Holds :
      (bb : Block) (pc : ℕ)
      → Holds host mem bytes
      → ((i : ℕ) → i < 7 → IsWord mem ((pc + 4 * i) % 2 ^ 64))
      → pc < 2 ^ 64
      → (block : Block) × (after : Memory) × (assemble
            (load_instr (machine host shift_left shift_right shift_signed))
            bb
            pc
            mem
          ≡ assembled block after)
        × IsLeft host mem after bytes
        × IsFinished (load_bytes bytes) pc block
  unfolding assemble
  assemble-Holds bb pc holds words below =
      whole_block pc _ _
        (assemble_loop-Same 7 pc (rebuild bb pc) mem
          (record { holds = holds; layout = record { devices = refl; page_size = λ d. refl } })
          words below)
        (assemble-IsFinished (load_bytes bytes) bb pc tt below)
