-- ===== src/Memory/LoadStore.antt =====
-- include/besm-666/memory/ram.hpp: `RAM::load` after `RAM::store`.
use besm.Prelude.{ℕ, ◌+◌, ◌%◌, ◌^◌, ◌≤◌, ◌<◌, false, ◌≡◌, ◌⊎◌, inl, inr, sym, ap, ◌∙◌, subst, arith}
use besm.Memory.Bytes.{
  Bytes, read_le, read_le_same, put, bytes_of, covered, put-outside, read-write_le,
}
use besm.Memory.Outcome.{done}
use besm.Memory.Allocator.{Host}
use besm.Memory.Pages.{IsAnonymous}
use besm.Memory.Ram.{Ram, load, store}
use besm.Memory.View.{IsValid, view, load_lem}
use besm.Memory.Stored.{Stored, IsStored, store_lem}

apart-covered :
    (m other n address i : ℕ)
    → (other + m ≤ address) ⊎ (address + n ≤ other)
    → i < m
    → covered n address (other + i) ≡ false
unfolding covered
apart-covered m other n address i (inl before) h = ground arith
apart-covered m other n address i (inr behind) h = ground arith

-- Bytes that are not written are read as before.
pub read-put_apart :
    (m other n address : ℕ) (source bytes : Bytes)
    → (other + m ≤ address) ⊎ (address + n ≤ other)
    → read_le m other (put n address source bytes) ≡ read_le m other bytes
read-put_apart m other n address source bytes apart =
    read_le_same m other other (put n address source bytes) bytes (λ i below.
      put-outside n address (other + i) source bytes
        (apart-covered m other n address i apart below))

module _ (host : Host) (n address value : ℕ) (ram after : Ram) (anonymous : IsAnonymous host)
    (valid : IsValid host ram) (hn : 0 < n) (whole : ram.page_size % n ≡ 0)
    (aligned : address % n ≡ 0) (e : store host n ram address value ≡ done after) where
  stored : IsStored host n address (bytes_of value) ram after
  unfolding Stored
  stored =
      subst (λ o. Stored host n address (bytes_of value) ram o) e
        (store_lem host n address value ram anonymous valid hn whole aligned)

  -- After a store of `n` bytes that ended well, to a valid RAM whose pages are multiples of `n`,
  -- at a multiple of `n`, over a host whose anonymous mappings are zeros: a load of `n` bytes at
  -- the address gives the value, if it is below 256 ^ `n`.
  pub store-load : value < 256 ^ n → load n after address ≡ done value
  store-load small =
      load_lem host n after address stored.valid hn (rw stored.page_size whole) aligned
      ∙ ap (λ (bytes : Bytes). done (read_le n address bytes)) stored.bytes
      ∙ ap (λ (v : ℕ). done v) (read-write_le n address value (view ram) small)

  -- A load elsewhere gets what it got before.
  pub store-load_apart :
      (m other : ℕ)
      → 0 < m
      → ram.page_size % m ≡ 0
      → other % m ≡ 0
      → (other + m ≤ address) ⊎ (address + n ≤ other)
      → load m after other ≡ load m ram other
  store-load_apart m other hm pages at apart =
      load_lem host m after other stored.valid hm (rw stored.page_size pages) at
      ∙ ap (λ (bytes : Bytes). done (read_le m other bytes)) stored.bytes
      ∙ ap (λ (v : ℕ). done v) (read-put_apart m other n address (bytes_of value) (view ram) apart)
      ∙ sym (load_lem host m ram other valid hm pages at)
