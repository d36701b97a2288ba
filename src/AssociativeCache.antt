-- ===== src/AssociativeCache.antt =====
-- include/besm-666/util/assotiative-cache.hpp: the templates `CacheEntry` and `Cache`. The dumper
-- only prints.
pub mod Laws
pub mod Invalidation
use besm.Prelude.{ℕ, zero, suc, ◌+◌, ◌*◌, ◌%◌, ◌^◌, ◌==◌, ◌&&◌, Bool, true, false, if◌then◌else◌}

-- `CacheEntry<PayloadType, TagType>`
pub record CacheEntry {ℓ} (P : Type ℓ) : Type ℓ where
  pub payload : P
  pub valid : Bool
  pub tag : ℕ

module _ {ℓ} {P : Type ℓ} where
  -- `CacheEntry()`, with `PayloadType{}`.
  unfoldable pub new_entry : P → CacheEntry P
  new_entry payload = record { payload = payload; valid = false; tag = 0 }

  unfoldable pub set_payload : P → ℕ → CacheEntry P → CacheEntry P
  set_payload payload tag entry = record { payload = payload; valid = true; tag = tag }

  unfoldable pub set_tag : ℕ → CacheEntry P → CacheEntry P
  set_tag tag entry = record entry { tag = tag; valid = true }

  unfoldable pub invalidate_entry : CacheEntry P → CacheEntry P
  invalidate_entry entry = record entry { valid = false }

-- `Cache`; the entries of a set stand one behind the other.
pub record Cache {ℓ} (P : Type ℓ) : Type ℓ where
  pub ways : ℕ
  pub sets : ℕ
  pub size : ℕ
  pub counters : ℕ → ℕ
  pub cached_data : ℕ → CacheEntry P

-- `Cache(ways, sets)`
unfoldable pub new {ℓ} : {P : Type ℓ} → P → ℕ → ℕ → Cache P
unfolding new_entry
new payload ways sets = record {
  ways = ways;
  sets = sets;
  size = ways * sets % 2 ^ 64;
  counters = λ set. 0;
  cached_data = λ i. new_entry payload;
}

abbrev pub set_at {ℓ} : {A : Type ℓ} → ℕ → A → (ℕ → A) → ℕ → A
set_at at value others i = if i == at then value else others i

-- A valid entry of the tag.
abbrev pub matches {ℓ} : {P : Type ℓ} → ℕ → CacheEntry P → Bool
matches tag entry = entry.valid && (entry.tag == tag)

module _ {ℓ} {P : Type ℓ} (tag_func : P → ℕ) (hash_func : ℕ → ℕ) where
  -- The place that the counter of a set names.
  unfoldable pub victim : ℕ → Cache P → ℕ
  victim set cache = set * cache.ways + cache.counters set

  -- `add`
  unfoldable pub add : P → Cache P → Cache P
  add payload cache =
      let tag = tag_func payload in
      let set = hash_func tag in
      record cache {
        cached_data =
            set_at (victim set cache)
              (set_payload payload tag (cache.cached_data (victim set cache))) cache.cached_data;
        counters = set_at set ((cache.counters set + 1) % cache.ways) cache.counters;
      }

  -- The loop of `find`, over the ways that are left.
  unfoldable pub find_from : ℕ → Cache P → ℕ → ℕ → ℕ
  find_from tag cache i zero = victim (hash_func tag) cache
  find_from tag cache i (suc n) =
      let rest = find_from tag cache (suc i) n in
      if matches tag (cache.cached_data i) then i else rest

  -- `find`: the place of the entry that it returns a reference to.
  unfoldable pub find : ℕ → Cache P → ℕ
  find tag cache = find_from tag cache (hash_func tag * cache.ways) cache.ways

  -- The loop of `invalidate(tag)`.
  unfoldable pub invalidate_from : ℕ → ℕ → ℕ → (ℕ → CacheEntry P) → ℕ → CacheEntry P
  invalidate_from tag i zero entries = entries
  invalidate_from tag i (suc n) entries =
      invalidate_from tag (suc i) n (
        if matches tag (entries i)
        then set_at i (invalidate_entry (entries i)) entries
        else entries)

  -- `invalidate(tag)`
  unfoldable pub invalidate : ℕ → Cache P → Cache P
  invalidate tag cache = record cache {
    cached_data = invalidate_from tag (hash_func tag * cache.ways) cache.ways cache.cached_data;
  }

  -- `incCounter`
  unfoldable pub inc_counter : ℕ → Cache P → Cache P
  inc_counter tag cache =
      let set = hash_func tag in
      record cache { counters = set_at set ((cache.counters set + 1) % 2 ^ 64) cache.counters }

module _ {ℓ} {P : Type ℓ} where
  -- The loop of `invalidate()`.
  unfoldable pub invalidate_each : ℕ → ℕ → (ℕ → CacheEntry P) → ℕ → CacheEntry P
  invalidate_each i zero entries = entries
  invalidate_each i (suc n) entries =
      invalidate_each (suc i) n (set_at i (invalidate_entry (entries i)) entries)

  -- `invalidate()`
  unfoldable pub invalidate_all : Cache P → Cache P
  invalidate_all cache = record cache {
    cached_data = invalidate_each 0 cache.size cache.cached_data;
  }

  abbrev pub get_size : Cache P → ℕ
  get_size cache = cache.size

  abbrev pub get_ways : Cache P → ℕ
  get_ways cache = cache.ways

  abbrev pub get_sets : Cache P → ℕ
  get_sets cache = cache.sets

  abbrev pub get_counter : ℕ → Cache P → ℕ
  get_counter set cache = cache.counters set

  -- `Cache(Cache &&other)`: the new cache.
  unfoldable pub move_cache : Cache P → Cache P
  move_cache other = other

  -- `operator=(Cache &&other)`: the two are exchanged.
  unfoldable pub move_assign : Cache P → Cache P → Cache P × Cache P
  move_assign cache other = (other, cache)
