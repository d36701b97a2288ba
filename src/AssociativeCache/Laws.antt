-- ===== src/AssociativeCache/Laws.antt =====
-- include/besm-666/util/assotiative-cache.hpp: what `add` puts there, `find` finds.
use besm.Prelude.{
  ℕ, zero, suc, ◌+◌, ◌*◌, ◌≤◌, ◌<◌, ◌==◌, ==_iff, true, false, Bool-cases, inl, inr, ◌≡◌, ◌⊎◌, refl,
  sym, ap, ◌∙◌, arith,
}
use native.Mathlib.Nat.{mod-lt}
use besm.AssociativeCache.{CacheEntry, Cache, set_payload, matches, victim, add, find_from, find}

-- Every counter names a way of its set.
pub record IsValid {ℓ} {P : Type ℓ} (cache : Cache P) : Type ℓ where
  pub ways : 0 < cache.ways
  pub counter : (set : ℕ) → cache.counters set < cache.ways

pub true-false : true ≡ false → ⊥
true-false e = cc

pub behind : (from i : ℕ) → from ≤ i → i == from ≡ false → suc from ≤ i
behind from i h differs = ground arith

module _ {ℓ} {P : Type ℓ} (tag_func : P → ℕ) (hash_func : ℕ → ℕ) where
  add-IsValid :
      (payload : P) (cache : Cache P)
      → IsValid cache
      → IsValid (add tag_func hash_func payload cache)
  unfolding add
  add-IsValid payload cache valid = record {
    ways = valid.ways;
    counter = λ set. elim (Bool-cases (set == hash_func (tag_func payload))) [
      | inl same ↦ rw same (mod-lt (cache.counters (hash_func (tag_func payload)) + 1) valid.ways)
      | inr differs ↦ rw differs (valid.counter set)
    ];
  }

  -- What `find` gives: the first entry of the tag among the ways, or the counter's where there is none.
  pub record IsFound (tag : ℕ) (cache : Cache P) (from n at : ℕ) : Type 0 where
    pub found :
        ((from ≤ at) × (at < from + n) × (matches tag (cache.cached_data at) ≡ true))
        ⊎ (at ≡ victim tag_func hash_func (hash_func tag) cache)
    pub first :
        (i : ℕ)
        → from ≤ i
        → i < from + n
        → matches tag (cache.cached_data i) ≡ true
        → matches tag (cache.cached_data at) ≡ true

  find_from-IsFound :
      (tag : ℕ) (cache : Cache P) (from n : ℕ)
      → IsFound tag cache from n (find_from tag_func hash_func tag cache from n)
  unfolding find_from
  find_from-IsFound tag cache from zero = record {
    found = inr refl;
    first = λ i left right h. absurd (omega arith);
  }
  find_from-IsFound tag cache from (suc n) =
      elim (Bool-cases (matches tag (cache.cached_data from))) [
        | inl here ↦ rw here (record {
          found = inl (omega arith, omega arith, here);
          first = λ i left right h. here;
        })
        | inr there ↦
            let rest = find_from-IsFound tag cache (suc from) n in
            rw there (record {
              found = elim rest.found [
                | inl (left, right, h) ↦ inl (omega (arith, left), omega (arith, right), h)
                | inr none ↦ inr none
              ];
              first = λ i left right h. elim (Bool-cases (i == from)) [
                | inl same ↦ absurd (
                    true-false (
                      sym h
                      ∙ ap (λ j. matches tag (cache.cached_data j)) ((==_iff i from).0 same)
                      ∙ there))
                | inr differs ↦ rest.first i (behind from i left differs) (omega (arith, right)) h
              ];
            })
      ]

  -- The places of a set.
  abbrev pub IsOf : ℕ → Cache P → ℕ → Type 0
  IsOf set cache i = (set * cache.ways ≤ i) × (i < set * cache.ways + cache.ways)

  -- What `find` gives: a place of the tag's set, which holds the tag if a place of the set does, and is
  -- the one that `add` fills next if none does.
  pub record IsPlace (tag : ℕ) (cache : Cache P) (at : ℕ) : Type 0 where
    pub inside : IsOf (hash_func tag) cache at
    pub holds :
        (i : ℕ)
        → IsOf (hash_func tag) cache i
        → matches tag (cache.cached_data i) ≡ true
        → matches tag (cache.cached_data at) ≡ true
    pub next :
        matches tag (cache.cached_data at) ≡ false
        → at ≡ victim tag_func hash_func (hash_func tag) cache

  pub find-IsPlace :
      (tag : ℕ) (cache : Cache P)
      → IsValid cache
      → IsPlace tag cache (find tag_func hash_func tag cache)
  unfolding find victim
  find-IsPlace tag cache valid =
      let start = hash_func tag * cache.ways in
      let is = find_from-IsFound tag cache start cache.ways in
      record {
        inside = elim is.found [
          | inl (left, right, h) ↦ (left, right)
          | inr none ↦ (omega (arith, none), omega (arith, none, valid.counter (hash_func tag)))
        ];
        holds = λ i inner h. is.first i inner.0 inner.1 h;
        next = λ h. elim is.found [
          | inl (left, right, also) ↦ absurd (true-false (sym also ∙ h))
          | inr none ↦ none
        ];
      }

  -- The entry that was added, and the others.
  added-here :
      (payload : P) (cache : Cache P)
      → (add tag_func hash_func payload cache).cached_data
          (victim tag_func hash_func (hash_func (tag_func payload)) cache)
        ≡ record { payload = payload; valid = true; tag = tag_func payload }
  unfolding add set_payload
  added-here payload cache =
      let at = victim tag_func hash_func (hash_func (tag_func payload)) cache in
      rw ((==_iff at at).1 refl) refl

  added-others :
      (payload : P) (cache : Cache P) (i : ℕ)
      → i == victim tag_func hash_func (hash_func (tag_func payload)) cache ≡ false
      → (add tag_func hash_func payload cache).cached_data i ≡ cache.cached_data i
  unfolding add
  added-others payload cache i differs = rw differs refl

  added-ways :
      (payload : P) (cache : Cache P) → (add tag_func hash_func payload cache).ways ≡ cache.ways
  unfolding add
  added-ways payload cache = refl

  victim-IsOf :
      (set : ℕ) (cache : Cache P)
      → IsValid cache
      → IsOf set cache (victim tag_func hash_func set cache)
  unfolding victim
  victim-IsOf set cache valid = (omega arith, omega (arith, valid.counter set))

  -- In a cache whose counters name ways: after `add` of a payload whose tag no valid entry of its
  -- set has, `find` of the tag gives the payload.
  pub add-find :
      (payload : P) (cache : Cache P)
      → IsValid cache
      → ((i : ℕ)
          → IsOf (hash_func (tag_func payload)) cache i
          → matches (tag_func payload) (cache.cached_data i) ≡ false)
      → ((add tag_func hash_func payload cache).cached_data (
          find tag_func hash_func
            (tag_func payload)
            (add tag_func hash_func payload cache))).payload
        ≡ payload
  unfolding add
  add-find payload cache valid new_tag =
      let tag = tag_func payload in
      let after = add tag_func hash_func payload cache in
      let at = find tag_func hash_func tag after in
      let place = victim tag_func hash_func (hash_func tag) cache in
      let is = find-IsPlace tag after (add-IsValid payload cache valid) in
      let held : matches tag (after.cached_data place) ≡ true =
        ap (λ (e : CacheEntry P). matches tag e) (added-here payload cache)
        ∙ (==_iff tag tag).1 refl in
      elim (Bool-cases (at == place)) [
        | inl same ↦
            ap (λ i. (after.cached_data i).payload) ((==_iff at place).0 same)
            ∙ ap (λ (e : CacheEntry P). e.payload) (added-here payload cache)
        | inr differs ↦ absurd (
            true-false (
              sym (is.holds place (victim-IsOf (hash_func tag) cache valid) held)
              ∙ ap (λ (e : CacheEntry P). matches tag e) (added-others payload cache at differs)
              ∙ new_tag at is.inside))
      ]
