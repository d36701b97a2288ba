-- ===== src/Memory/Copies.antt =====
-- src/memory/phys-mem.cpp: the loop of `PhysMem::storeContArea` ends, with the whole area copied.
use besm.Prelude.{
  ℕ, zero, suc, ◌+◌, ◌-◌, ◌^◌, ◌≤◌, ◌<◌, ltb, ltb→lt, false, Bool-cases, Option, none, some, inl,
  inr, ◌≡◌, refl, sym, ap, ◌∙◌, subst, arith,
}
use besm.Memory.Bytes.{Bytes, put}
use besm.Memory.Outcome.{
  Outcome, done, unaligned, invalid_address, invalid_argument, mapping_intersection, bad_alloc,
  undefined,
}
use besm.Memory.Allocator.{Host}
use besm.Memory.Pages.{IsAnonymous}
use besm.Memory.Range.{Range}
use besm.Memory.PhysMem.{PhysMem, scan}
use besm.Memory.Physical.{IsValid, IsInside, view, inside-scan}
use besm.Memory.Writes.{IsWritten, Written}
use besm.Memory.Area.{turn, goes_on, copy_loop, store_cont_area}
use besm.Memory.Areas.{put-put, put-none, Turned, turn-Turned}

-- Copies one behind the other are a copy.
written-written :
    {host : Host} {i n address : ℕ} {source : Bytes} {first second third : PhysMem}
    → IsWritten host i address source first second
    → IsWritten host n (address + i) (λ j. source (i + j)) second third
    → IsWritten host (i + n) address source first third
written-written {i} {n} {address} {source} {first} one two = record {
  valid = two.valid;
  bytes =
      two.bytes
      ∙ ap (put n (address + i) (λ j. source (i + j))) one.bytes
      ∙ put-put n i address source (view first);
  devices = two.devices ∙ one.devices;
  page_size = λ device. two.page_size device ∙ one.page_size device;
  pages = λ device id nth place e. two.pages device id nth place (one.pages device id nth place e);
}

unwritten :
    (host : Host) (address : ℕ) (source : Bytes) (mem : PhysMem)
    → IsValid host mem
    → IsWritten host 0 address source mem mem
unwritten host address source mem valid = record {
  valid = valid;
  bytes = sym (put-none address source (view mem));
  devices = refl;
  page_size = λ device. refl;
  pages = λ device id nth place e. e;
}

module _ (host : Host) (address : ℕ) (source : Bytes) (size : ℕ) (mem : PhysMem) (range : Range)
    (device : ℕ) (anonymous : IsAnonymous host) (valid : IsValid host mem)
    (inner : IsInside size address mem range device) (small : address + size ≤ 2 ^ 64) where
  -- The loop has an end, and what it leaves is the copy or `std::bad_alloc`.
  unfoldable Copied : Option (Outcome PhysMem) → Type 0
  Copied none = ⊥
  Copied (some outcome) = Written host size address source mem outcome

  ending :
      (result : Option (Outcome PhysMem))
      → Copied result
      → (outcome : Outcome PhysMem) × (result ≡ some outcome)
        × Written host size address source mem outcome
  unfolding Copied
  ending none is = absurd is
  ending (some outcome) is = (outcome, refl, is)

  gone_on :
      (fuel i : ℕ) (later : PhysMem) (outcome : Outcome (ℕ × PhysMem))
      → IsWritten host i address source mem later
      → size ≤ i + suc fuel
      → ((n : ℕ) (after : PhysMem)
          → IsWritten host n address source mem after
          → n ≤ size
          → size ≤ n + fuel
          → Copied (copy_loop host address source size fuel n after))
      → Turned host address source size i later outcome
      → Copied (
          goes_on host address source size
            (λ (n : ℕ) (after : PhysMem). copy_loop host address source size fuel (i + n) after)
            outcome)
  unfolding Turned Copied Written
  gone_on fuel i later (done (n, after)) so_far enough rest (some_bytes, bound, is) =
      rest (i + n) after (written-written so_far is) bound (omega arith)
  gone_on fuel i later unaligned so_far enough rest is = absurd is
  gone_on fuel i later invalid_address so_far enough rest is = absurd is
  gone_on fuel i later invalid_argument so_far enough rest is = absurd is
  gone_on fuel i later mapping_intersection so_far enough rest is = absurd is
  gone_on fuel i later bad_alloc so_far enough rest is = is
  gone_on fuel i later undefined so_far enough rest is = absurd is

  end-Copied :
      (i : ℕ) (later : PhysMem)
      → IsWritten host i address source mem later
      → i ≤ size
      → ltb i size ≡ false
      → Copied (some (done later))
  unfolding Copied Written
  end-Copied i later so_far bound over =
      let all : i ≡ size = ground arith in
      subst (λ n. IsWritten host n address source mem later) all so_far

  copy_loop-Copied :
      (fuel i : ℕ) (later : PhysMem)
      → IsWritten host i address source mem later
      → i ≤ size
      → size ≤ i + fuel
      → Copied (copy_loop host address source size fuel i later)
  unfolding copy_loop
  copy_loop-Copied zero i later so_far bound enough =
      let over : ltb i size ≡ false = ground arith in rw over (end-Copied i later so_far bound over)
  copy_loop-Copied (suc fuel) i later so_far bound enough = elim (Bool-cases (ltb i size)) [
    | inl more ↦
        let below : i < size = ltb→lt i size more in
        let inner_turn : IsInside (size - i) (address + i) later range device = record {
          found =
              subst (λ devices. scan (address + i) devices ≡ some (range, device))
                (sym so_far.devices) (inside-scan valid inner i below);
          fits = omega (arith, inner.fits);
        } in
        rw more (
          gone_on fuel i later (turn host address source size i later) so_far enough
            (λ n after is. copy_loop-Copied fuel n after is)
            (turn-Turned host address source size i later range device so_far.valid inner_turn below
              anonymous (omega arith)))
    | inr over ↦ rw over (end-Copied i later so_far bound over)
  ]

  -- `storeContArea` of an area inside one device and below 2 ^ 64, on a valid memory over a host
  -- whose anonymous mappings are zeros: the loop ends within as many turns as there are bytes,
  -- with exactly the area overwritten by the bytes, or with `std::bad_alloc` over a host that gives
  -- a null pointer for some mapping.
  pub store_cont_area-Copied :
      (outcome : Outcome PhysMem) × (store_cont_area host address source size mem ≡ some outcome)
      × Written host size address source mem outcome
  unfolding store_cont_area
  store_cont_area-Copied = ending (copy_loop host address source size size 0 mem) (
      copy_loop-Copied size 0 mem (unwritten host address source mem valid) (omega arith)
        (omega arith))
