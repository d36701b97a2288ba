-- ===== src/Memory/Created.antt =====
-- src/memory/ram.cpp: the constructor of `RAM`.
use besm.Prelude.{
  ℕ, suc, ◌+◌, ◌-◌, ◌*◌, ◌/◌, ◌%◌, ◌^◌, ◌≤◌, ◌<◌, ◌==◌, ==_iff, leb, leb→le, not, ◌||◌, Bool, true,
  false, Bool-cases, none, inl, inr, ◌≡◌, ◌≢◌, ◌⊎◌, refl, sym, ap, ◌∙◌, subst, arith,
}
use native.Mathlib.Nat.{
  mod-lt, mod-eq_of_lt, mul-mod_left, div-add-mod', mul_assoc, pow-le-pow_right, two-pow-succ,
}
use besm.Prelude.Bits.{two-pow-add, two-pow-pos}
use besm.Memory.Sizes.{is_2pow, is_2pow_lem, nearest_2pow_divident, nearest_2pow_divident_lem}
use besm.Memory.Outcome.{Outcome, done, invalid_argument}
use besm.Memory.Allocator.{Host, Chunk}
use besm.Memory.Allocator
use besm.Memory.Ram
use besm.Memory.Ram.{Ram, load, store}
use besm.Memory.View.{IsValid, byte_in, view}

-- Why the constructor refuses its sizes.
abbrev pub Refused : ℕ → ℕ → ℕ → Type 0
Refused ram_size page_size chunk_size =
    (ram_size ≡ 0) ⊎ ((k : ℕ) → page_size ≢ 2 ^ k) ⊎ (chunk_size < page_size)

-- What the constructor promises of sizes that it does not refuse.
unfoldable pub Created : Host → ℕ → ℕ → ℕ → Outcome Ram → Type 0
Created host ram_size page_size chunk_size (done ram) =
    IsValid host ram × (view ram ≡ λ x. 0) × (ram.ram_size ≡ ram_size) × (ram.page_size ≡ page_size)
Created host ram_size page_size chunk_size invalid_argument = Refused ram_size page_size chunk_size
Created host ram_size page_size chunk_size _ = ⊥

multiple-mod : (q j k : ℕ) → j ≤ k → q * 2 ^ k % 2 ^ j ≡ 0
multiple-mod q j k h =
    let split : k ≡ k - j + j = omega arith in
    let power : 2 ^ k ≡ 2 ^ (k - j) * 2 ^ j = ap (λ (t : ℕ). 2 ^ t) split ∙ two-pow-add (k - j) j in
    rw (power, sym (mul_assoc q (2 ^ (k - j)) (2 ^ j))) (mul-mod_left (q * 2 ^ (k - j)) (2 ^ j))

two_pos : 0 < 2
two_pos = omega arith

above : (j k : ℕ) → leb j k ≡ false → suc k ≤ j
above j k h = ground arith

below_exponent : (j k : ℕ) → 2 ^ j ≤ 2 ^ k → j ≤ k
below_exponent j k h = elim (Bool-cases (leb j k)) [
  | inl le ↦ leb→le j k le
  | inr more ↦
      absurd
        (omega (arith, pow-le-pow_right (two_pos) (above j k more), two-pow-succ k, two-pow-pos k))
]

-- The bytes of a chunk, in whole pages.
chunk_size_lem :
    (host_bits page_bits chunk_size : ℕ)
    → host_bits < 64
    → page_bits ≤ host_bits
    → chunk_size + 2 ^ host_bits < 2 ^ 64
    → (0 < nearest_2pow_divident chunk_size (2 ^ host_bits))
      × (nearest_2pow_divident chunk_size (2 ^ host_bits) % 2 ^ page_bits ≡ 0)
chunk_size_lem host_bits page_bits chunk_size h below fits =
    let sum : (chunk_size + 2 ^ host_bits) % 2 ^ 64 ≡ chunk_size + 2 ^ host_bits =
      mod-eq_of_lt fits in
    rw (nearest_2pow_divident_lem chunk_size host_bits h) (
      rw sum (
          omega (
            arith,
            div-add-mod' (chunk_size + 2 ^ host_bits) (2 ^ host_bits),
            mod-lt (chunk_size + 2 ^ host_bits) (two-pow-pos host_bits),
          )),
      multiple-mod ((chunk_size + 2 ^ host_bits) % 2 ^ 64 / 2 ^ host_bits) page_bits host_bits
          below,
    )

either_true : (b c : Bool) → b || not c ≡ true → c ≡ true → b ≡ true
either_true true c e f = refl
either_true false true e f = absurd cc
either_true false false e f = absurd cc

both_false : (b c : Bool) → b || not c ≡ false → (b ≡ false) × (c ≡ true)
both_false true c e = absurd cc
both_false false true e = (refl, refl)
both_false false false e = absurd cc

not_both : (n : ℕ) → n == 0 ≡ false → n ≢ 0
not_both n differs equal = ground arith

few_pages : (c p : ℕ) → 0 < p → c / p ≡ 0 → c < p
few_pages c p h e = ground (arith, div-add-mod' c p, mod-lt c h)

-- The tests of the constructor, and what they mean.
not_power :
    (page_size : ℕ)
    → page_size < 2 ^ 64
    → (page_size == 0) || not (is_2pow page_size) ≡ true
    → (k : ℕ) → page_size ≢ 2 ^ k
not_power page_size small refused k e =
    let power : is_2pow page_size ≡ true = (is_2pow_lem page_size small).1 (inr (k, e)) in
    let zeroed =
      (==_iff page_size 0).0 (either_true (page_size == 0) (is_2pow page_size) refused power) in
    omega (arith, two-pow-pos k)

is_power :
    (page_size : ℕ)
    → page_size < 2 ^ 64
    → (page_size == 0) || not (is_2pow page_size) ≡ false
    → (k : ℕ) × (page_size ≡ 2 ^ k)
is_power page_size small passed =
    let (nonzero, power) = both_false (page_size == 0) (is_2pow page_size) passed in
    elim ((is_2pow_lem page_size small).0 power) [
      | inl zeroed ↦ absurd (not_both page_size nonzero zeroed)
      | inr exponent ↦ exponent
    ]

module _ (host : Host) (host_bits ram_size page_size chunk_size : ℕ) (chunks : ℕ → Chunk)
    (e : host.page_size ≡ 2 ^ host_bits) (bits : host_bits < 64)
    (small : page_size ≤ host.page_size) (fits : chunk_size + host.page_size < 2 ^ 64) where
  pub passed-IsValid :
      (k : ℕ)
      → page_size ≡ 2 ^ k
      → IsValid host (record {
        ram_size = ram_size;
        page_size = page_size;
        allocator = Allocator.new page_size chunk_size chunks;
        pagemap = λ id. none;
      })
  unfolding Allocator.new
  passed-IsValid k power =
      let sizes =
        chunk_size_lem host_bits k chunk_size bits
          (below_exponent k host_bits (omega (arith, power, e, small)))
          (subst (λ s. chunk_size + s < 2 ^ 64) e fits) in
      record {
        allocator = record {
          page = rw power (two-pow-pos k);
          size = rw e sizes.0;
          whole = rw (e, power) sizes.1;
          chunk = λ i below. absurd (omega arith);
        };
        page_size = refl;
        placed = λ id. tt;
        apart = λ id other nth place one two. absurd cc;
      }

  pub new-Created :
      Created host ram_size page_size chunk_size (Ram.new ram_size page_size chunk_size chunks)
  unfolding Created Ram.new view byte_in
  new-Created = elim (Bool-cases (ram_size == 0)) [
    | inl zeroed ↦ rw zeroed (inl ((==_iff ram_size 0).0 zeroed))
    | inr sized ↦ elim (Bool-cases ((page_size == 0) || not (is_2pow page_size))) [
      | inl refused ↦ rw (sized, refused) (inr (inl (not_power page_size (omega arith) refused)))
      | inr passed ↦ elim (Bool-cases (chunk_size / page_size == 0)) [
        | inl few ↦
            rw (sized, passed, few)
              (inr (
                inr (
                  few_pages chunk_size page_size
                    (rw (is_power page_size (omega arith) passed).1
                      (two-pow-pos (is_power page_size (omega arith) passed).0))
                    ((==_iff (chunk_size / page_size) 0).0 few))))
        | inr enough ↦
            let power = is_power page_size (omega arith) passed in
            rw (sized, passed, enough) (passed-IsValid power.0 power.1, refl, refl, refl)
      ]
    ]
  ]
