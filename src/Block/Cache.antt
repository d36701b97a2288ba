-- ===== src/Block/Cache.antt =====
-- The lookup in the cache of blocks: where it looks, what it finds and what it replaces.
use besm.Prelude.{
  ℕ, zero, suc, ◌+◌, ◌*◌, ◌/◌, ◌%◌, ◌≤◌, ◌<◌, ◌==◌, ==_iff, Bool, true, false, Option, none, some,
  Bool-cases, inl, inr, ◌≡◌, ◌≢◌, refl, sym, ap, ◌∙◌, arith,
}
use besm.Prelude.Bits.{bit_and-field, bit_and-mask}
use besm.BitMagic.{shl}
use besm.Block.{Block, BlockCache, sets, ways, hash, find_way, take_way, lookup, refill}

pub hash_lem : (pc : ℕ) → hash pc ≡ pc / 32 % 128
unfolding hash shl
hash_lem pc = rw (bit_and-field 7 5 pc) (omega arith)

-- The rower of every set names one of its ways.
pub record IsValid (cache : BlockCache) : Type 0 where
  pub rower : (set : ℕ) → cache.lru_rowers set < ways

-- What the search of a set says.
Searched : ℕ → ℕ → ℕ → BlockCache → Option ℕ → Type 0
Searched left index pc cache (some found) =
    (index ≤ found) × (found < index + left) × ((cache.bbs found).pc ≡ pc)
Searched left index pc cache none = (i : ℕ) → index ≤ i → i < index + left → (cache.bbs i).pc ≢ pc

widened :
    (left index pc : ℕ) (cache : BlockCache)
    → (cache.bbs index).pc ≢ pc
    → (o : Option ℕ) → Searched left (suc index) pc cache o
    → Searched (suc left) index pc cache o
unfolding Searched
widened left index pc cache n (some found) (p, q, e) = (omega arith, omega arith, e)
widened left index pc cache n none h = λ i p q e. elim (Bool-cases (i == index)) [
  | inl same ↦ n (rw⁻¹ ((==_iff i index).0 same) e)
  | inr differs ↦ h i (ground arith) (omega arith) e
]

find_way_lem :
    (left index pc : ℕ) (cache : BlockCache)
    → Searched left index pc cache (find_way left index pc cache)
unfolding find_way Searched
find_way_lem zero index pc cache = λ i p q e. omega arith
find_way_lem (suc left) index pc cache = elim (Bool-cases ((cache.bbs index).pc == pc)) [
  | inl same ↦ rw same (omega arith, omega arith, (==_iff (cache.bbs index).pc pc).0 same)
  | inr differs ↦ rw differs (
      widened left index pc cache (λ e. cc (differs, (==_iff (cache.bbs index).pc pc).1 e)) _
        (find_way_lem left (suc index) pc cache))
]

-- What a lookup says, by whether it finds.
unfoldable pub Looked : ℕ → BlockCache → Bool × ℕ × BlockCache → Type 0
Looked pc cache (true, index, next) =
    (index / ways ≡ hash pc) × ((cache.bbs index).pc ≡ pc) × (next ≡ cache)
Looked pc cache (false, index, next) =
    ((i : ℕ) → i / ways ≡ hash pc → (cache.bbs i).pc ≢ pc)
    × (index ≡ hash pc * ways + cache.lru_rowers (hash pc))
    × (index / ways ≡ hash pc)
    × (next.bbs ≡ cache.bbs)
    × (next.lru_rowers (hash pc) ≡ (cache.lru_rowers (hash pc) + 1) % ways)
    × ((set : ℕ) → set ≢ hash pc → next.lru_rowers set ≡ cache.lru_rowers set)

by_search :
    (pc : ℕ) (cache : BlockCache) (o : Option ℕ)
    → IsValid cache
    → Searched ways (hash pc * ways) pc cache o
    → Looked pc cache (take_way pc cache o)
unfolding Looked take_way Searched
by_search pc cache (some found) valid (p, q, s) = (omega arith, s, refl)
by_search pc cache none valid h = (
  λ i at. h i (omega arith) (omega arith),
  omega arith,
  omega (arith, valid.rower (hash pc)),
  refl,
  rw ((==_iff (hash pc) (hash pc)).1 refl) (bit_and-mask 3 (cache.lru_rowers (hash pc) + 1)),
  λ set n. ground arith,
)

-- A lookup in a cache with valid rowers. One that finds: the block has the address and stands in the set of the address, and the
-- cache is as it was. One that does not: no block of the set has the address, the block to be
-- replaced is the one at the rower of the set and stands in the set, the blocks are as they were,
-- and only that set's rower moves, to the next way.
pub lookup_lem : (pc : ℕ) (cache : BlockCache) → IsValid cache → Looked pc cache (lookup pc cache)
unfolding lookup
lookup_lem pc cache valid = by_search pc cache _ valid (find_way_lem ways (hash pc * ways) pc cache)

bounded :
    (pc : ℕ) (cache : BlockCache) (o : Option ℕ)
    → IsValid cache
    → Searched ways (hash pc * ways) pc cache o
    → ((take_way pc cache o).1 < sets * ways) × IsValid (take_way pc cache o).2
unfolding take_way Searched
bounded pc cache (some found) valid (p, q, s) = (omega (arith, hash_lem pc), valid)
bounded pc cache none valid h = (
  omega (arith, hash_lem pc, valid.rower (hash pc)),
  record {
    rower = λ set. elim (Bool-cases (set == hash pc)) [
      | inl same ↦ rw (same, bit_and-mask 3 (cache.lru_rowers (hash pc) + 1)) (omega arith)
      | inr differs ↦ rw differs (valid.rower set)
    ];
  },
)

-- From valid rowers on, every lookup gives an index inside the array, and valid rowers.
pub lookup-IsValid :
    (pc : ℕ) (cache : BlockCache)
    → IsValid cache
    → ((lookup pc cache).1 < sets * ways) × IsValid (lookup pc cache).2
unfolding lookup
lookup-IsValid pc cache valid =
    bounded pc cache _ valid (find_way_lem ways (hash pc * ways) pc cache)

-- What a miss says of the way it gives.
missed :
    (pc : ℕ) (cache : BlockCache) (r : Bool × ℕ × BlockCache)
    → Looked pc cache r
    → r.0 ≡ false
    → ((i : ℕ) → i / ways ≡ hash pc → (cache.bbs i).pc ≢ pc)
      × (r.1 / ways ≡ hash pc)
      × (r.2.bbs ≡ cache.bbs)
unfolding Looked
missed pc cache (true, index, next) looked miss = cc
missed pc cache (false, index, next) (others, at, inside, same, moved, kept) miss =
    (others, inside, same)

refilled_search :
    (pc index : ℕ) (cache : BlockCache) (r : Bool × ℕ × BlockCache)
    → index / ways ≡ hash pc
    → (cache.bbs index).pc ≡ pc
    → ((i : ℕ) → i / ways ≡ hash pc → i ≢ index → (cache.bbs i).pc ≢ pc)
    → Looked pc cache r
    → r ≡ (true, index, cache)
unfolding Looked
refilled_search pc index cache (false, found, next) at s only
      (others, place, inside, same, moved, kept) =
    absurd (others index at s)
refilled_search pc index cache (true, found, next) at s only (in_set, has, same) =
    elim (Bool-cases (found == index)) [
      | inl e ↦ rw ((==_iff found index).0 e, same)
      | inr differs ↦ absurd (only found in_set (λ e. cc (differs, (==_iff found index).1 e)) has)
    ]

refill_self :
    (index : ℕ) (bb : Block) (cache : BlockCache) → ((refill index bb cache).bbs index).pc ≡ bb.pc
unfolding refill
refill_self index bb cache = rw ((==_iff index index).1 refl)

refill_other :
    (index i : ℕ) (bb : Block) (cache : BlockCache)
    → i ≢ index
    → ((refill index bb cache).bbs i).pc ≡ (cache.bbs i).pc
unfolding refill
refill_other index i bb cache n = elim (Bool-cases (i == index)) [
  | inl same ↦ absurd (n ((==_iff i index).0 same))
  | inr differs ↦ rw differs
]

refill-IsValid :
    (index : ℕ) (bb : Block) (cache : BlockCache) → IsValid cache → IsValid (refill index bb cache)
unfolding refill
refill-IsValid index bb cache valid = record { rower = valid.rower }

-- A block that is written, with its address, where a lookup missed is what the next lookup of
-- that address finds.
pub lookup-refill :
    (pc : ℕ) (cache : BlockCache) (bb : Block)
    → IsValid cache
    → (lookup pc cache).0 ≡ false
    → bb.pc ≡ pc
    → let (found, index, next) = lookup pc cache in
      lookup pc (refill index bb next) ≡ (true, index, refill index bb next)
lookup-refill pc cache bb valid miss e =
    let m = missed pc cache (lookup pc cache) (lookup_lem pc cache valid) miss in
    refilled_search pc (lookup pc cache).1 _ _ m.1 (refill_self _ bb _ ∙ e)
      (λ i at n h. m.0 i at (sym (refill_other _ i bb _ n ∙ ap (λ f. (f i).pc) m.2) ∙ h))
      (lookup_lem pc _ (refill-IsValid _ bb _ (lookup-IsValid pc cache valid).1))
