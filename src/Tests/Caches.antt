-- ===== src/Tests/Caches.antt =====
-- The theorems on the associative cache and on the hooks at concrete inputs.
use besm.Prelude.{ℕ, ◌+◌, ◌*◌, ◌%◌, ◌≤◌, ◌<◌, List, [], ◌∷◌, false, ◌≡◌, refl, arith}
use besm.AssociativeCache.{Cache, new, add, find, invalidate, matches}
use besm.AssociativeCache.Laws.{IsValid, add-find}
use besm.AssociativeCache.Invalidation.{invalidate-find}
use besm.Sim.Hooks.{Hook, do_trigger_hooks, register_all, callbacks_of, trigger-registered}

-- Two ways and four sets of numbers, each its own tag.
abbrev itself : ℕ → ℕ
itself payload = payload

abbrev set_of : ℕ → ℕ
set_of tag = tag % 4

abbrev small_cache : Cache ℕ
small_cache = new 0 2 4

small_cache-IsValid : IsValid small_cache
unfolding new
small_cache-IsValid = record { ways = omega arith; counter = λ set. omega arith }

absent :
    (i : ℕ)
    → (1 * small_cache.ways ≤ i) × (i < 1 * small_cache.ways + small_cache.ways)
    → matches 9 (small_cache.cached_data i) ≡ false
unfolding new
absent i inner = refl

add-find_example :
    ((add itself set_of 9 small_cache).cached_data
      (find itself set_of 9 (add itself set_of 9 small_cache))).payload
    ≡ 9
add-find_example = add-find itself set_of 9 small_cache small_cache-IsValid absent

invalidate-find_example :
    (matches 9 (
        (invalidate itself set_of 9 small_cache).cached_data
          (find itself set_of 9 (invalidate itself set_of 9 small_cache)))
      ≡ false)
    × ((i : ℕ)
        → matches 9 (small_cache.cached_data i) ≡ false
        → (invalidate itself set_of 9 small_cache).cached_data i ≡ small_cache.cached_data i)
invalidate-find_example = invalidate-find itself set_of 9 small_cache small_cache-IsValid

abbrev small_hooks : List Hook
small_hooks = (1, 10) ∷ (0, 20) ∷ (1, 30) ∷ []

trigger-registered_example :
    do_trigger_hooks 1 (register_all small_hooks []) ≡ callbacks_of 1 small_hooks
trigger-registered_example = trigger-registered 1 small_hooks
