-- ===== src/Memory/Fetched.antt =====
-- src/memory/prefetcher.cpp: the word that `Prefetcher::loadWord` gives.
use besm.Prelude.{
  ℕ, ◌+◌, ◌-◌, ◌*◌, ◌/◌, ◌%◌, ◌<◌, ltb, lt→ltb, true, Bool-cases, Option, none, some, inl, inr, ◌≡◌,
  refl, sym, ap, ◌∙◌, subst, arith,
}
use native.Mathlib.Nat.{mod-lt}
use besm.Memory.Bytes.{read_le}
use besm.Memory.Outcome.{Outcome, done, ◌>>=◌}
use besm.Memory.Allocator.{Host, Pointer, null, inside}
use besm.Memory.Range.{Range, contains-right}
use besm.Memory.Ram
use besm.Memory.Ram.{Ram, found, get_page_address, host_area}
use besm.Memory.View.{same_page-div, same_page-mod}
use besm.Memory.PhysMem
use besm.Memory.PhysMem.{Entry, PhysMem, Area, area, scan, cached, remember, find_device, area_of}
use besm.Memory.Lookup.{some-injective, scan-IsEntry, find_device_lem, cached-IsCoherent}
use besm.Memory.Physical.{IsValid, IsAccess, view, inside-IsEntry, inside-left, load-bytes}
use besm.Memory.Mmu
use besm.Memory.Mmu.{load_lem}
use besm.Memory.Prefetcher.{
  Prefetcher, Memory, word_at, is_saved, with_memory, save_or_load, load_word,
}
use besm.Memory.Linked.{
  IsPage, IsLinked, IsWhole, same_word, entry-page_size, saved-before, saved-scan, word-view,
  word_at_lem, kept-IsLinked,
}

-- What fetching a word promises.
pub record IsFetched (host : Host) (vaddress : ℕ) (before : PhysMem) (word : ℕ) (after : Memory)
    : Type 0 where
  pub value : word ≡ read_le 4 vaddress (view before)
  pub valid : IsValid host after.phys
  pub linked : IsLinked after.phys after.prefetcher
  pub devices : after.phys.devices ≡ before.devices
  pub rams : after.phys.rams ≡ before.rams

unfoldable pub Fetched : Host → ℕ → PhysMem → Outcome (ℕ × Memory) → Type 0
Fetched host vaddress before (done (value, after)) = IsFetched host vaddress before value after
Fetched host vaddress before _ = ⊥

module _ {host : Host} {vaddress : ℕ} {mem : PhysMem} (prefetcher : Prefetcher) {range : Range}
    {device : ℕ} (valid : IsValid host mem) (access : IsAccess 4 vaddress mem range device)
    (linked : IsLinked mem prefetcher) where
  -- The saved page.
  saved-Fetched :
      (nth place : ℕ)
      → IsPage mem prefetcher range device nth place
      → is_saved prefetcher vaddress ≡ true
      → Fetched host vaddress mem (
          with_memory
            (record { phys = mem; prefetcher = prefetcher })
            (word_at ((vaddress - prefetcher.start) / 4 * 4) prefetcher.saved mem))
  unfolding Fetched
  saved-Fetched nth place is saved =
      let (after, before) = saved-before prefetcher vaddress saved in
      let p = (mem.rams device).page_size in
      let start = prefetcher.start - range.left_border in
      let behind = vaddress - prefetcher.start in
      let ps_pos : 0 < p = entry-page_size range device valid is.entry in
      let moved : vaddress - range.left_border ≡ start + behind = omega (arith, is.left) in
      let inner : start % p + behind < p = omega (arith, is.len) in
      let words : behind / 4 * 4 ≡ behind =
        same_word start behind is.aligned (subst (λ a. a % 4 ≡ 0) moved access.aligned) in
      let id : (vaddress - range.left_border) / p ≡ start / p =
        rw moved (same_page-div start behind p ps_pos inner) in
      let offset : (vaddress - range.left_border) % p ≡ start % p + behind =
        rw moved (same_page-mod start behind p ps_pos inner) in
      rw
        (word_at_lem (behind / 4 * 4) prefetcher.saved mem device nth (place + start % p) is.owner
          is.pointer)
        (record {
          value =
              ap (λ at. read_le 4 at ((mem.rams device).allocator.chunks nth).bytes)
                (omega (arith, words, offset))
              ∙ word-view valid access nth place (rw id is.page);
          valid = valid;
          linked = linked;
          devices = refl;
          rams = refl;
        })

  cached-IsValid : IsValid host (cached (range, device) mem)
  cached-IsValid = record {
    coherent = cached-IsCoherent mem vaddress (range, device) valid.coherent access.inside.found;
    rams = valid.rams;
    once = valid.once;
  }

  cached-view : view (cached (range, device) mem) ≡ view mem
  unfolding view
  cached-view = refl

  loaded-Fetched : Fetched host vaddress mem (
      Mmu.load 4 (cached (range, device) mem) vaddress
      >>= (λ (value, later). done (value, record { phys = later; prefetcher = prefetcher })))
  unfolding Fetched
  loaded-Fetched =
      let again : IsAccess 4 vaddress (cached (range, device) mem) range device = record {
        inside = record { found = access.inside.found; fits = access.inside.fits };
        bytes = access.bytes;
        page = access.page;
        aligned = access.aligned;
      } in
      rw (load_lem 4 (cached (range, device) mem) vaddress ∙ load-bytes cached-IsValid again)
        (record {
          value = ap (read_le 4 vaddress) cached-view;
          valid = record {
            coherent =
                cached-IsCoherent (cached (range, device) mem) vaddress (range, device)
                  cached-IsValid.coherent access.inside.found;
            rams = valid.rams;
            once = valid.once;
          };
          linked =
              kept-IsLinked mem (cached (range, device) (cached (range, device) mem)) prefetcher
                refl (λ d. refl) (λ d id nth place e. e) linked;
          devices = refl;
          rams = refl;
        })

  -- A page that is found is saved; where there is none, the MMU loads.
  found-Fetched :
      (page : Option Pointer)
      → (mem.rams device).pagemap ((vaddress - range.left_border) / (mem.rams device).page_size)
        ≡ page
      → Fetched host vaddress mem (
          save_or_load vaddress prefetcher (
            area device (
                host_area
                  (mem.rams device).page_size
                  ((vaddress - range.left_border) % (mem.rams device).page_size)
                  (found page)),
            cached (range, device) mem,
          ))
  unfolding Fetched save_or_load IsLinked
  found-Fetched none e = loaded-Fetched
  found-Fetched (some null) e = loaded-Fetched
  found-Fetched (some (inside nth place)) e =
      let p = (mem.rams device).page_size in
      let at = vaddress - range.left_border in
      let ps_pos : 0 < p =
        entry-page_size range device valid (inside-IsEntry valid access.inside) in
      let more : ltb 0 (p - at % p) ≡ true =
        lt→ltb 0 (p - at % p) (omega (arith, mod-lt at ps_pos)) in
      let in_range =
        contains-right range vaddress
          (scan-IsEntry vaddress mem.devices (range, device) access.inside.found).1 in
      rw more (record {
        value =
            ap (λ a. read_le 4 a ((mem.rams device).allocator.chunks nth).bytes) (omega arith)
            ∙ word-view valid access nth place e;
        valid = cached-IsValid;
        linked = inr (
          range,
          device,
          nth,
          place,
          record {
            entry = inside-IsEntry valid access.inside;
            left = inside-left valid access.inside;
            right = in_range;
            page = e;
            owner = refl;
            pointer = refl;
            len = refl;
            aligned = access.aligned;
          },
        );
        devices = refl;
        rams = refl;
      })

-- There is one entry to access.
other-IsAccess :
    {vaddress : ℕ} {mem : PhysMem} {range other : Range} {device found : ℕ}
    → IsAccess 4 vaddress mem range device
    → scan vaddress mem.devices ≡ some (other, found)
    → IsAccess 4 vaddress mem other found
other-IsAccess {vaddress} {mem} access e =
    subst (λ (entry : Entry). IsAccess 4 vaddress mem entry.0 entry.1)
      (some-injective (sym access.inside.found ∙ e)) access

-- `Prefetcher::loadWord`, for an aligned word inside a device, over valid devices of whole pages:
-- it gives the word that the memory holds at the address, whether it goes through the saved
-- address or the MMU, and what it saves leads to the bytes again.
pub load_word-Fetched :
    (host : Host) (mem : Memory) (vaddress : ℕ) (range : Range) (device : ℕ)
    → IsValid host mem.phys
    → IsWhole mem.phys
    → IsLinked mem.phys mem.prefetcher
    → IsAccess 4 vaddress mem.phys range device
    → Fetched host vaddress mem.phys (load_word mem vaddress)
unfolding load_word IsLinked Mmu.get_host_address Mmu.translate_address PhysMem.get_host_address
    Ram.get_host_address get_page_address
load_word-Fetched host mem vaddress range device valid whole linked access =
    elim (Bool-cases (is_saved mem.prefetcher vaddress)) [
      | inl saved ↦ elim linked [
        | inl empty ↦ absurd (omega (arith, empty, saved-before mem.prefetcher vaddress saved))
        | inr (saved_range, saved_device, nth, place, is) ↦
            let at : IsAccess 4 vaddress mem.phys saved_range saved_device =
              other-IsAccess access
                (saved-scan vaddress saved_range saved_device nth place valid whole is saved) in
            rw saved (
              saved-Fetched mem.prefetcher valid at
                (inr (saved_range, saved_device, nth, place, is)) nth place is saved)
      ]
      | inr other ↦ rw other (
          subst
            (λ (o : Outcome ((Range × Option ℕ) × PhysMem)).
              Fetched host vaddress mem.phys
                (o >>= area_of vaddress >>= save_or_load vaddress mem.prefetcher))
            (sym (
              find_device_lem mem.phys vaddress valid.coherent
              ∙ ap (remember mem.phys) access.inside.found))
            (found-Fetched mem.prefetcher valid access linked
              ((mem.phys.rams device).pagemap
                ((vaddress - range.left_border) / (mem.phys.rams device).page_size))
              refl))
    ]
