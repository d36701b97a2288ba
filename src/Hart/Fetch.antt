-- ===== src/Hart/Fetch.antt =====
-- `Hart::fetchBB`: the hart always stands at the start of a whole block of its program counter.
use besm.Prelude.{
  ℕ, ◌^◌, ◌<◌, ◌==◌, ==_iff, Bool, true, false, Option, none, some, ◌>>=◌, Bool-cases, inl, inr,
  ◌≡◌, ◌≢◌, ◌⊎◌, refl, sym, ◌∙◌, subst, arith,
}
use besm.Gprf
use besm.Instruction.{Instruction}
use besm.Block.{Block, BlockCache, new, refill}
use besm.Block.Cache.{IsValid, Looked, lookup_lem, lookup-IsValid}
use besm.Block.Assembly.{
  Assembled, assembled, thrown, out_of_fuel, IsFinished, Throws, Finished, assemble-IsFinished,
}
use besm.Hart.{Hart, Platform, read_register, load_instr, enter, fill, fetch_at, fetch_bb}

module _ {M : Type 0} (platform : Platform M) where
  -- Every block of the cache is whole, or still the constructor's, whose address is 1.
  pub record IsSteady (cache : BlockCache) : Type 0 where
    pub rowers : IsValid cache
    pub blocks :
        (i : ℕ)
        → ((cache.bbs i).pc ≡ 1) ⊎ IsFinished (load_instr platform) (cache.bbs i).pc (cache.bbs i)

  -- What is true of the hart after a fetch, which ends early only where a load of the block throws.
  unfoldable pub Entered : Hart M → Option (Hart M) → Type 0
  Entered hart none = Throws (load_instr platform) (read_register Gprf.pc hart)
  Entered hart (some entered) =
      (entered.current.1 ≡ 0)
      × IsFinished (load_instr platform) (read_register Gprf.pc hart)
          (entered.bb_cache.bbs entered.current.0)
      × IsSteady entered.bb_cache
      × (entered.gprf ≡ hart.gprf)
      × (entered.csrf ≡ hart.csrf)

  fill_lem :
      (index pc : ℕ) (hart looked : Hart M) (a : Assembled M)
      → IsValid looked.bb_cache
      → ((i : ℕ)
          → ((looked.bb_cache.bbs i).pc ≡ 1)
            ⊎ IsFinished (load_instr platform) (looked.bb_cache.bbs i).pc (looked.bb_cache.bbs i))
      → pc ≡ read_register Gprf.pc hart
      → looked.gprf ≡ hart.gprf
      → looked.csrf ≡ hart.csrf
      → Finished (load_instr platform) pc a
      → Entered hart
          (fill platform index looked a >>= (λ filled. some (enter platform index filled)))
  unfolding fill enter refill Finished Entered
  fill_lem index pc hart looked (assembled bb memory) valid blocks e g c done = (
    refl,
    rw ((==_iff index index).1 refl) (subst (λ a. IsFinished (load_instr platform) a bb) e done),
    record {
      rowers = record { rower = valid.rower };
      blocks = λ i. elim (Bool-cases (i == index)) [
        | inl same ↦
            rw same (inr (subst (λ a. IsFinished (load_instr platform) a bb) (sym done.at) done))
        | inr differs ↦ rw differs (blocks i)
      ];
    },
    g,
    c,
  )
  fill_lem index pc hart looked thrown valid blocks e g c done =
      subst (λ a. Throws (load_instr platform) a) e done
  fill_lem index pc hart looked out_of_fuel valid blocks e g c done = absurd done

  fetch_at_lem :
      (pc : ℕ) (hart : Hart M) (r : Bool × ℕ × BlockCache)
      → pc ≡ read_register Gprf.pc hart
      → pc < 2 ^ 64
      → pc ≢ 1
      → IsSteady hart.bb_cache
      → IsValid r.2
      → Looked pc hart.bb_cache r
      → Entered hart (fetch_at platform pc hart r)
  unfolding fetch_at Looked Entered enter
  fetch_at_lem pc hart (true, index, cache) e h n steady valid (at, has, same) = (
    refl,
    rw same (elim (steady.blocks index) [
      | inl one ↦ absurd (n (sym has ∙ one))
      | inr whole ↦
          subst (λ a. IsFinished (load_instr platform) a (hart.bb_cache.bbs index)) (has ∙ e) whole
    ]),
    rw same steady,
    refl,
    refl,
  )
  fetch_at_lem pc hart (false, index, cache) e h n steady valid
        (others, at, inside, bbs, moved, kept) =
      fill_lem index pc hart (record hart { bb_cache = cache }) _ valid
        (λ i.
          subst
            (λ (f : ℕ → Block). ((f i).pc ≡ 1) ⊎ IsFinished (load_instr platform) (f i).pc (f i))
            (sym bbs) (steady.blocks i))
        e refl refl (assemble-IsFinished (load_instr platform) (cache.bbs index) pc hart.memory h)

  -- A fetch at a program counter other than 1, over a steady cache: unless the load of one of the
  -- seven words from it on throws, the hart
  -- stands at the first instruction of a whole block of its program counter, the cache is steady
  -- again, and the registers are as they were.
  pub fetch_bb_lem :
      (hart : Hart M)
      → IsSteady hart.bb_cache
      → read_register Gprf.pc hart < 2 ^ 64
      → read_register Gprf.pc hart ≢ 1
      → Entered hart (fetch_bb platform hart)
  unfolding fetch_bb
  fetch_bb_lem hart steady h n =
      fetch_at_lem (read_register Gprf.pc hart) hart _ refl h n steady
        (lookup-IsValid (read_register Gprf.pc hart) hart.bb_cache steady.rowers).1
        (lookup_lem (read_register Gprf.pc hart) hart.bb_cache steady.rowers)

  -- The constructor's cache is steady.
  pub new-IsSteady : (found : ℕ → ℕ → Instruction) → IsSteady (new found)
  unfolding new
  new-IsSteady found = record {
    rowers = record { rower = λ set. omega arith };
    blocks = λ i. inl refl;
  }
