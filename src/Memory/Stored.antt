-- ===== src/Memory/Stored.antt =====
-- include/besm-666/memory/ram.hpp: what `RAM::store` promises.
use besm.Memory.Pages.{IsShort}
use besm.Prelude.{
  ℕ, ◌+◌, ◌/◌, ◌%◌, ◌≤◌, ◌<◌, ==_iff, Option, none, some, ◌≡◌, refl, sym, ap, ◌∙◌, subst,
}
use besm.Memory.Bytes.{Bytes, bytes_of, put}
use besm.Memory.Outcome.{Outcome, done, bad_alloc}
use besm.Memory.Allocator.{Host, Pointer, null, inside}
use besm.Memory.Pages.{IsAnonymous}
use besm.Memory.Ram.{
  Ram, found_or_new, touch_page_address, host_place, touch_host_address, write_bytes, write_through,
  store,
}
use besm.Memory.View.{IsValid, view, aligned-fits}
use besm.Memory.Touch.{IsExtended, Touched, found_or_new-Touched}
use besm.Memory.Stores.{after, written-view, written-IsValid}

-- What a store promises: a valid memory whose bytes are the old ones with the source written over
-- them, or `std::bad_alloc`.
pub record IsStored (host : Host) (n address : ℕ) (source : Bytes) (before after : Ram)
    : Type 0 where
  pub valid : IsValid host after
  pub page_size : after.page_size ≡ before.page_size
  pub ram_size : after.ram_size ≡ before.ram_size
  pub bytes : view after ≡ put n address source (view before)
  pub pages : IsExtended before after

unfoldable pub Stored : Host → ℕ → ℕ → Bytes → Ram → Outcome Ram → Type 0
Stored host n address source before (done after) = IsStored host n address source before after
Stored host n address source before bad_alloc = IsShort host
Stored host n address source before _ = ⊥

kept_page_size :
    (n nth place : ℕ) (source : Bytes) (ram : Ram)
    → (write_bytes n nth place source ram).page_size ≡ ram.page_size
unfolding write_bytes
kept_page_size n nth place source ram = refl

kept_pagemap :
    (n nth place : ℕ) (source : Bytes) (ram : Ram) (id : ℕ)
    → (write_bytes n nth place source ram).pagemap id ≡ ram.pagemap id
unfolding write_bytes
kept_pagemap n nth place source ram id = refl

kept_ram_size :
    (n nth place : ℕ) (source : Bytes) (ram : Ram)
    → (write_bytes n nth place source ram).ram_size ≡ ram.ram_size
unfolding write_bytes
kept_ram_size n nth place source ram = refl

module _ (host : Host) (n address : ℕ) (source : Bytes) (ram : Ram)
    (fits : address % ram.page_size + n ≤ ram.page_size) where
  pub write_through-Stored :
      (touched : Option (Pointer × Ram))
      → Touched host (address / ram.page_size) ram touched
      → Stored host n address source ram
          (write_through n source (host_place ram.page_size (address % ram.page_size) touched))
  unfolding Touched Stored write_through
  write_through-Stored none is = is
  write_through-Stored (some (null, after)) is = absurd is
  write_through-Stored (some (inside nth place, after)) is =
      let offset : address % after.page_size ≡ address % ram.page_size =
        ap (λ (p : ℕ). address % p) is.page_size in
      let spot =
        subst (λ p. after.pagemap (address / p) ≡ some (inside nth place)) (sym is.page_size)
          is.page in
      let inner : address % after.page_size + n ≤ after.page_size = rw is.page_size fits in
      record {
        valid =
            subst (λ o. IsValid host (write_bytes n nth (place + o) source after)) offset
              (written-IsValid host n address nth place source after is.valid spot inner);
        page_size =
            kept_page_size n nth (place + address % ram.page_size) source after ∙ is.page_size;
        ram_size = kept_ram_size n nth (place + address % ram.page_size) source after ∙ is.ram_size;
        bytes =
            subst
              (λ o.
                view (write_bytes n nth (place + o) source after) ≡ put n address source (view ram))
              offset
              (written-view host n address nth place source after is.valid spot inner
                ∙ ap (put n address source) is.same);
        pages = λ id other start e.
            kept_pagemap n nth (place + address % ram.page_size) source after id
            ∙ is.pages id other start e;
      }

-- A store of `n` bytes to a valid RAM whose pages are multiples of `n`, at a multiple of `n`, over
-- a host whose anonymous mappings are zeros: a valid RAM is left whose bytes are the old ones with
-- the value written at the address and nowhere else, or `std::bad_alloc` is thrown and the host
-- gives a null pointer for some mapping.
pub store_lem :
    (host : Host) (n address value : ℕ) (ram : Ram)
    → IsAnonymous host
    → IsValid host ram
    → 0 < n
    → ram.page_size % n ≡ 0
    → address % n ≡ 0
    → Stored host n address (bytes_of value) ram (store host n ram address value)
unfolding store touch_host_address touch_page_address
store_lem host n address value ram anonymous valid hn whole aligned =
    let p : 0 < ram.page_size = rw valid.page_size valid.allocator.page in
    let id = address / ram.page_size in
    rw ((==_iff (address % n) 0).1 aligned) (
      write_through-Stored host n address (bytes_of value) ram
        (aligned-fits address ram.page_size n hn p whole aligned)
        (found_or_new host id ram (ram.pagemap id))
        (found_or_new-Touched host ram id (ram.pagemap id) anonymous valid refl))
