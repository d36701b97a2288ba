-- ===== src/Memory/Areas.antt =====
-- src/memory/phys-mem.cpp: what `PhysMem::storeContArea` copies.
use besm.Memory.Pages.{IsShort}
use besm.Prelude.{
  ℕ, ◌+◌, ◌-◌, ◌/◌, ◌%◌, ◌^◌, ◌≤◌, ◌<◌, ◌==◌, ==_iff, min, true, false, Bool-cases, Option, none,
  some, inl, inr, ◌≡◌, refl, sym, ap, ◌∙◌, subst, fun_ext, arith,
}
use native.Mathlib.Nat.{mod-lt, mod-eq_of_lt}
use besm.Memory.Bytes.{Bytes, put, put-outside, covered}
use besm.Memory.Outcome.{Outcome, done, bad_alloc, ◌>>=◌}
use besm.Memory.Allocator.{Host, Pointer, null, inside}
use besm.Memory.Pages.{IsAnonymous}
use besm.Memory.Range.{Range}
use besm.Memory.Ram
use besm.Memory.Ram.{Ram, host_place, write_bytes, found_or_new, touch_page_address}
use besm.Memory.Touch.{Touched, found_or_new-Touched}
use besm.Memory.Stored.{IsStored, Stored, write_through-Stored}
use besm.Memory.PhysMem.{
  PhysMem, set_ram, cached, remember, find_device, touched_area, touch_area, touch_host_address,
}
use besm.Memory.Lookup.{find_device_lem}
use besm.Memory.Physical.{IsValid, IsInside, inside-IsEntry}
use besm.Memory.Writes.{IsWritten, written}
use besm.Memory.Area.{copy_to, copied, turn}

-- Two areas, one behind the other, and what they cover together.
covered-behind : (n i a x : ℕ) → covered n (a + i) x ≡ true → covered (i + n) a x ≡ true
unfolding covered
covered-behind n i a x h = ground arith

place_behind : (n i a x : ℕ) → covered n (a + i) x ≡ true → i + (x - (a + i)) ≡ x - a
unfolding covered
place_behind n i a x h = ground arith

covered-before : (n i a x : ℕ) → covered i a x ≡ true → covered (i + n) a x ≡ true
unfolding covered
covered-before n i a x h = ground arith

covered-neither :
    (n i a x : ℕ)
    → covered n (a + i) x ≡ false
    → covered i a x ≡ false
    → covered (i + n) a x ≡ false
unfolding covered
covered-neither n i a x h k = ground arith

covered-none : (a x : ℕ) → covered 0 a x ≡ false
unfolding covered
covered-none a x = ground arith

-- Two copies, one behind the other.
pub put-put :
    (n i address : ℕ) (source bytes : Bytes)
    → put n (address + i) (λ j. source (i + j)) (put i address source bytes)
      ≡ put (i + n) address source bytes
unfolding put
put-put n i address source bytes = fun_ext (λ x. elim (Bool-cases (covered n (address + i) x)) [
  | inl behind ↦
      rw (behind, covered-behind n i address x behind)
        (ap source (place_behind n i address x behind))
  | inr out ↦ elim (Bool-cases (covered i address x)) [
    | inl before ↦ rw (out, before, covered-before n i address x before) refl
    | inr neither ↦ rw (out, neither, covered-neither n i address x out neither) refl
  ]
])

pub put-none : (address : ℕ) (source bytes : Bytes) → put 0 address source bytes ≡ bytes
put-none address source bytes =
    fun_ext (λ x. put-outside 0 address x source bytes (covered-none address x))

-- A copy to a device that was just changed.
copy_to-set :
    (n device nth place : ℕ) (source : Bytes) (ram : Ram) (mem : PhysMem)
    → copy_to n device source nth place (set_ram device ram mem)
      ≡ set_ram device (write_bytes n nth place source ram) mem
unfolding set_ram
copy_to-set n device nth place source ram mem =
    ap (λ (rams : ℕ → Ram). record mem { rams = rams })
      (fun_ext (λ other. elim (Bool-cases (other == device)) [
        | inl same ↦ rw (same, (==_iff device device).1 refl) refl
        | inr differs ↦ rw differs refl
      ]))

-- What a turn promises.
unfoldable pub Turned : Host → ℕ → Bytes → ℕ → ℕ → PhysMem → Outcome (ℕ × PhysMem) → Type 0
Turned host address source size i before (done (n, after)) =
    (0 < n) × (i + n ≤ size) × IsWritten host n (address + i) (λ j. source (i + j)) before after
Turned host address source size i before bad_alloc = IsShort host
Turned host address source size i before _ = ⊥

module _ (host : Host) (address : ℕ) (source : Bytes) (size i : ℕ) (mem : PhysMem) (range : Range)
    (device : ℕ) (valid : IsValid host mem)
    (inner : IsInside (size - i) (address + i) mem range device) (more : i < size) where
  abbrev offset : ℕ
  offset = (address + i - range.left_border) % (mem.rams device).page_size

  abbrev ps : ℕ
  ps = (mem.rams device).page_size

  page_pos : 0 < ps
  page_pos =
      let of_device = valid.rams (range, device) (inside-IsEntry valid inner) in
      rw of_device.page_size of_device.allocator.page

  copied-Turned :
      (touched : Option (Pointer × Ram))
      → Touched host ((address + i - range.left_border) / ps) (mem.rams device) touched
      → Turned host address source size i mem (
          touched_area device (cached (range, device) mem) (host_place ps offset touched)
          >>= (λ (area, later).
              copied host address source size i area.device area.size later area.pointer))
  unfolding Touched Turned copied Stored Ram.write_through
  copied-Turned none is = is
  copied-Turned (some (null, ram)) is = absurd is
  copied-Turned (some (inside nth place, ram)) is =
      let n = min (size - i) (ps - offset) in
      let bytes = λ (j : ℕ). source (i + j) in
      let below : offset < ps = mod-lt (address + i - range.left_border) page_pos in
      let inside_page : offset + n ≤ ps = omega (arith, below) in
      let stored : IsStored host n (address + i - range.left_border) bytes (mem.rams device)
          (write_bytes n nth (place + offset) bytes ram) =
        write_through-Stored host n (address + i - range.left_border) bytes (mem.rams device)
          inside_page (some (inside nth place, ram)) is in
      let inner_turn : IsInside n (address + i) mem range device = record {
        found = inner.found;
        fits = omega (arith, inner.fits);
      } in
      (
        omega (arith, below, more),
        omega (arith, more),
        subst (λ later. IsWritten host n (address + i) bytes mem later)
            (sym (copy_to-set n device nth (place + offset) bytes ram (cached (range, device) mem)))
            (written bytes valid inner_turn (write_bytes n nth (place + offset) bytes ram) stored),
      )

  -- A turn copies a byte or more, where they belong.
  pub turn-Turned :
      IsAnonymous host
      → address + i < 2 ^ 64
      → Turned host address source size i mem (turn host address source size i mem)
  unfolding turn touch_host_address Ram.touch_host_address touch_page_address
  turn-Turned anonymous small =
      let id = (address + i - range.left_border) / ps in
      subst
        (λ a. Turned host address source size i mem (
          find_device mem a >>= touch_area host a >>= (λ (area, later).
            copied host address source size i area.device area.size later area.pointer)))
        (sym (mod-eq_of_lt small))
        (subst
          (λ (o : Outcome ((Range × Option ℕ) × PhysMem)). Turned host address source size i mem (
            o >>= touch_area host (address + i) >>= (λ (area, later).
              copied host address source size i area.device area.size later area.pointer)))
          (sym (find_device_lem mem (address + i) valid.coherent ∙ ap (remember mem) inner.found))
          (copied-Turned (found_or_new host id (mem.rams device) ((mem.rams device).pagemap id)) (
            found_or_new-Touched host (mem.rams device) id ((mem.rams device).pagemap id) anonymous
              (valid.rams (range, device) (inside-IsEntry valid inner)) refl)))
