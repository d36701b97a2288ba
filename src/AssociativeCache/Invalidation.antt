-- ===== src/AssociativeCache/Invalidation.antt =====
-- include/besm-666/util/assotiative-cache.hpp: what `invalidate` takes out.
use besm.Prelude.{
  ℕ, zero, suc, ◌+◌, ◌*◌, ◌≤◌, ◌<◌, ◌==◌, ==_iff, false, Bool-cases, inl, inr, if◌then◌else◌, ◌≡◌,
  refl, sym, ap, ◌∙◌, subst, arith,
}
use besm.AssociativeCache.{
  CacheEntry, Cache, set_at, matches, invalidate_entry, invalidate_from, invalidate, find,
}
use besm.AssociativeCache.Laws.{IsValid, true-false, behind, find-IsPlace}

module _ {ℓ} {P : Type ℓ} (tag : ℕ) where
  abbrev step : ℕ → (ℕ → CacheEntry P) → ℕ → CacheEntry P
  step i entries =
      if matches tag (entries i) then set_at i (invalidate_entry (entries i)) entries else entries

  step-here : (i : ℕ) (entries : ℕ → CacheEntry P) → matches tag (step i entries i) ≡ false
  unfolding invalidate_entry
  step-here i entries = elim (Bool-cases (matches tag (entries i))) [
    | inl here ↦ rw (here, (==_iff i i).1 refl) refl
    | inr there ↦ rw there there
  ]

  step-kept :
      (i j : ℕ) (entries : ℕ → CacheEntry P)
      → matches tag (entries j) ≡ false
      → step i entries j ≡ entries j
  step-kept i j entries h = elim (Bool-cases (matches tag (entries i))) [
    | inl here ↦ elim (Bool-cases (j == i)) [
      | inl same ↦ absurd (
          true-false (sym here ∙ ap (λ k. matches tag (entries k)) (sym ((==_iff j i).0 same)) ∙ h))
      | inr differs ↦ rw (here, differs) refl
    ]
    | inr there ↦ rw there refl
  ]

module _ {ℓ} {P : Type ℓ} (tag_func : P → ℕ) (hash_func : ℕ → ℕ) (tag : ℕ) where
  invalidate_from-kept :
      (i n j : ℕ) (entries : ℕ → CacheEntry P)
      → matches tag (entries j) ≡ false
      → invalidate_from tag_func hash_func tag i n entries j ≡ entries j
  unfolding invalidate_from
  invalidate_from-kept i zero j entries h = refl
  invalidate_from-kept i (suc n) j entries h =
      let kept = step-kept tag i j entries h in
      invalidate_from-kept (suc i) n j (step tag i entries)
        (ap (λ (e : CacheEntry P). matches tag e) kept ∙ h)
      ∙ kept

  invalidate_from-gone :
      (i n j : ℕ) (entries : ℕ → CacheEntry P)
      → i ≤ j
      → j < i + n
      → matches tag (invalidate_from tag_func hash_func tag i n entries j) ≡ false
  unfolding invalidate_from
  invalidate_from-gone i zero j entries left right = absurd (omega arith)
  invalidate_from-gone i (suc n) j entries left right = elim (Bool-cases (j == i)) [
    | inl same ↦
        let here : matches tag (step tag i entries j) ≡ false =
          subst (λ k. matches tag (step tag i entries k) ≡ false) (sym ((==_iff j i).0 same))
            (step-here tag i entries) in
        ap (λ (e : CacheEntry P). matches tag e)
          (invalidate_from-kept (suc i) n j (step tag i entries) here)
        ∙ here
    | inr differs ↦
        invalidate_from-gone (suc i) n j (step tag i entries) (behind i j left differs)
          (omega arith)
  ]

  kept-IsValid :
      (cache : Cache P) → IsValid cache → IsValid (invalidate tag_func hash_func tag cache)
  unfolding invalidate
  kept-IsValid cache valid = record { ways = valid.ways; counter = valid.counter }

  -- In a cache whose counters name ways: after `invalidate` of a tag, `find` of the tag gives no
  -- valid entry of it, and every entry that was not a valid one of the tag is as before.
  pub invalidate-find :
      (cache : Cache P)
      → IsValid cache
      → (matches tag (
            (invalidate tag_func hash_func tag cache).cached_data
              (find tag_func hash_func tag (invalidate tag_func hash_func tag cache)))
          ≡ false)
        × ((i : ℕ)
            → matches tag (cache.cached_data i) ≡ false
            → (invalidate tag_func hash_func tag cache).cached_data i ≡ cache.cached_data i)
  unfolding invalidate
  invalidate-find cache valid =
      let after = invalidate tag_func hash_func tag cache in
      let is = find-IsPlace tag_func hash_func tag after (kept-IsValid cache valid) in
      (
        invalidate_from-gone (hash_func tag * cache.ways) cache.ways
            (find tag_func hash_func tag after) cache.cached_data is.inside.0 is.inside.1,
        λ i h. invalidate_from-kept (hash_func tag * cache.ways) cache.ways i cache.cached_data h,
      )
