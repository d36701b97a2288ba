-- ===== src/Hart/Runs.antt =====
-- The run through the instructions of a block: each is executed once, in order.
use besm.Prelude.{ℕ, zero, suc, ◌+◌, ◌%◌, ◌^◌, ◌<◌, true, List, ◌∷◌, ◌≡◌, refl, ◌∙◌, subst, arith}
use besm.Csr.Registers.{Encoding}
use besm.Block.{Block}
use besm.Hart.{
  Hart, Step, Platform, Event, instr_executed, next, dispatch, returned, terminated, raised,
  current_instr,
}
use besm.Hart.Run.{call_handler, advance, run_from}
use besm.Hart.Dispatch.{handler_arr_lem}
use besm.Hart.Frame.{is_plain, Throws, Kept, handler-Kept}

-- The calls of the hook, the last one first, when `n` instructions of a block have been executed
-- from a place on.
unfoldable pub executed : ℕ → Block → ℕ → List Event → List Event
executed zero bb place events = events
executed (suc n) bb place events =
    executed n bb (suc place) (instr_executed (bb.instrs place) ∷ events)

module _ {M : Type 0} where
  -- Where the hart stands after `n` instructions of its block.
  pub record IsPast (n : ℕ) (hart after : Hart M) : Type 0 where
    pub block : after.current.0 ≡ hart.current.0
    pub place : after.current.1 ≡ hart.current.1 + n
    pub bb_cache : after.bb_cache ≡ hart.bb_cache
    pub csrf : after.csrf ≡ hart.csrf
    pub events :
        after.events ≡ executed n (hart.bb_cache.bbs hart.current.0) hart.current.1 hart.events
    pub count : after.instrs_executed % 2 ^ 64 ≡ (hart.instrs_executed + n) % 2 ^ 64

  -- The next `n` instructions are plain.
  unfoldable pub ArePlain : ℕ → Hart M → Type 0
  ArePlain n hart =
      (i : ℕ)
      → i < n
      → is_plain ((hart.bb_cache.bbs hart.current.0).instrs (hart.current.1 + i)).operation ≡ true

  here : (hart : Hart M) → IsPast 0 hart hart
  unfolding executed
  here hart = record {
    block = refl;
    place = omega arith;
    bb_cache = refl;
    csrf = refl;
    events = refl;
    count = omega arith;
  }

  IsPast-IsPast :
      (n : ℕ) (hart mid after : Hart M)
      → IsPast 1 hart mid
      → IsPast n mid after
      → IsPast (suc n) hart after
  unfolding executed
  IsPast-IsPast n hart mid after one rest = record {
    block = rest.block ∙ one.block;
    place = omega (arith, rest.place, one.place);
    bb_cache = rest.bb_cache ∙ one.bb_cache;
    csrf = rest.csrf ∙ one.csrf;
    events = rest.events ∙ rw (one.bb_cache, one.block, one.events, one_more) refl;
    count = omega (arith, rest.count, one.count);
  }
    where
      one_more : mid.current.1 ≡ suc hart.current.1
      one_more = omega (arith, one.place)

  IsPast-ArePlain :
      (n : ℕ) (hart mid : Hart M) → IsPast 1 hart mid → ArePlain (suc n) hart → ArePlain n mid
  unfolding ArePlain
  IsPast-ArePlain n hart mid one plain =
      λ i below. rw (one.bb_cache, one.block, shifted i) (plain (suc i) (omega arith))
    where
      shifted : (i : ℕ) → mid.current.1 + i ≡ hart.current.1 + suc i
      shifted i = omega (arith, one.place)

  first :
      (n : ℕ) (hart : Hart M)
      → ArePlain (suc n) hart
      → is_plain (current_instr hart).operation ≡ true
  unfolding ArePlain
  first n hart plain =
      subst (λ place. is_plain ((hart.bb_cache.bbs hart.current.0).instrs place).operation ≡ true)
        (same hart.current.1) (plain 0 (omega arith))
    where
      same : (place : ℕ) → place + 0 ≡ place
      same place = omega arith

module _ {M : Type 0} (platform : Platform M) where
  -- A run whose next handler is the one of the instruction `n` places on in the block, or which
  -- the memory cut short.
  unfoldable pub Passes : ℕ → Hart M → Step M → Type 0
  Passes n hart (next after) = IsPast n hart (advance after)
  Passes n hart (dispatch after) = IsPast n hart after
  Passes n hart (returned after) = ⊥
  Passes n hart terminated = ⊥
  Passes n hart raised = Throws platform

  one-IsPast :
      (hart after : Hart M) → Kept platform hart (next after) → IsPast 1 hart (advance after)
  unfolding Kept advance executed
  one-IsPast hart after (bb_cache, current, csrf, events, count) = record {
    block = rw current refl;
    place = rw current (omega arith);
    bb_cache = bb_cache;
    csrf = csrf;
    events = rw (bb_cache, current, events) refl;
    count = rw count (omega arith);
  }

  IsPast-Passes :
      (n : ℕ) (hart mid : Hart M) (step : Step M)
      → IsPast 1 hart mid
      → Passes n mid step
      → Passes (suc n) hart step
  unfolding Passes
  IsPast-Passes n hart mid (next after) one passes =
      IsPast-IsPast n hart mid (advance after) one passes
  IsPast-Passes n hart mid (dispatch after) one passes = IsPast-IsPast n hart mid after one passes
  IsPast-Passes n hart mid (returned after) one passes = absurd passes
  IsPast-Passes n hart mid terminated one passes = absurd passes
  IsPast-Passes n hart mid raised one passes = passes

module _ {M : Type 0} (platform : Platform M) (enc : Encoding) where
  -- The handler of a plain instruction goes on, or the memory throws.
  plain-Kept :
      (hart : Hart M)
      → is_plain (current_instr hart).operation ≡ true
      → Kept platform hart (call_handler platform enc hart)
  unfolding call_handler
  plain-Kept hart plain =
      rw (handler_arr_lem (current_instr hart).operation)
        (handler-Kept platform enc (current_instr hart).operation hart plain)

  -- `execNextInstr` is a dispatch of the advanced hart.
  next-Passes :
      (n : ℕ) (after : Hart M)
      → Passes platform n (advance after) (run_from platform enc n (dispatch (advance after)))
      → Passes platform n (advance after) (run_from platform enc n (next after))
  unfolding run_from Passes
  next-Passes zero after passes = passes
  next-Passes (suc n) after passes = passes

  still-Passes :
      (n : ℕ) (hart : Hart M)
      → Throws platform
      → Passes platform (suc n) hart (run_from platform enc n raised)
  unfolding run_from Passes
  still-Passes zero hart throws = throws
  still-Passes (suc n) hart throws = throws

  gone_on :
      (n : ℕ) (hart : Hart M) (step : Step M)
      → Kept platform hart step
      → ((mid : Hart M)
          → IsPast 1 hart mid
          → Passes platform n mid (run_from platform enc n (dispatch mid)))
      → Passes platform (suc n) hart (run_from platform enc n step)
  unfolding Kept
  gone_on n hart (next after) kept rest =
      let one = one-IsPast platform hart after kept in
      IsPast-Passes platform n hart (advance after) (run_from platform enc n (next after)) one
        (next-Passes n after (rest (advance after) one))
  gone_on n hart (dispatch after) kept rest = absurd kept
  gone_on n hart (returned after) kept rest = absurd kept
  gone_on n hart terminated kept rest = absurd kept
  gone_on n hart raised kept rest = still-Passes n hart kept

  -- The run of `n` handlers from the one of the current instruction on, where the `n` instructions
  -- of the block from the current one on are plain: the handler called next is that of the
  -- instruction `n` places on in the same block; the hooks were told of each of the `n`
  -- instructions once, in order, and the counter counts them; the cache of blocks and the control
  -- registers are as they were. Otherwise the memory throws at a load or a store.
  pub run_from-Passes :
      (n : ℕ) (hart : Hart M)
      → ArePlain n hart
      → Passes platform n hart (run_from platform enc n (dispatch hart))
  unfolding run_from Passes ArePlain
  run_from-Passes zero hart plain = here hart
  run_from-Passes (suc n) hart plain =
      gone_on n hart (call_handler platform enc hart) (plain-Kept hart (first n hart plain))
        (λ mid one. run_from-Passes n mid (IsPast-ArePlain n hart mid one plain))
