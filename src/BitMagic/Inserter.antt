-- ===== src/BitMagic/Inserter.antt =====
-- The template loop of `MaskedInserter`.
use besm.Prelude.{
  ℕ, zero, suc, ◌+◌, ◌-◌, ◌*◌, ◌/◌, ◌%◌, ◌^◌, ◌≤◌, ◌<◌, ◌==◌, ◌≡◌, refl, sym, ap, ◌∙◌, arith,
  Bool-cases, inl, inr,
}
use besm.Prelude.Bits.{
  two-pow-pos, two-pow-add, mod-two-pow-add, div-two-pow-add, div-of-parts, mod-of-parts,
}
use native.Mathlib.Nat.{mod-lt, mod-mod, mod-one, add-zero, div-add-mod'}
use besm.BitMagic.Fields.{extract_bits_lem, change_bits_lem}
use besm.BitMagic.Reference.{scatter}
use besm.BitMagic.{extract_bits, change_bits, masked_inserter}
use besm.BitMagic.Extractor.{bit_at, grown, regroup_longer, packed}

module _ (w mask : ℕ) where
  -- One run of the mask is written at `a`.
  run_placed :
      (a series placed pos value set_place : ℕ)
      → pos ≡ a + series
      → pos ≤ w
      → placed ≤ a
      → set_place < 2 ^ w
      → change_bits w series a set_place (extract_bits w series placed value)
        ≡ (set_place / 2 ^ pos * 2 ^ series + value / 2 ^ placed % 2 ^ series) * 2 ^ a
          + set_place % 2 ^ a
  run_placed a series placed pos value set_place at_pos inside below fits =
      rw
        (
          change_bits_lem w series a (omega arith) set_place (extract_bits w series placed value)
              fits,
          extract_bits_lem w series placed value (omega arith),
          mod-mod (value / 2 ^ placed) (2 ^ series),
          at_pos,
          div-two-pow-add set_place a series,
        )
        refl

  -- What a run writes stays below `pos`.
  run-lt :
      (a series pos x y : ℕ)
      → pos ≡ a + series
      → x < 2 ^ series
      → y < 2 ^ a
      → x * 2 ^ a + y < 2 ^ pos
  run-lt a series pos x y at_pos hx hy =
      rw (at_pos, two-pow-add a series) (packed x (2 ^ series) y (2 ^ a) hx hy)

  keeps_width : (q p h z z' : ℕ) → q * p + z' < h * p → z < p → q * p + z < h * p
  keeps_width q p h z z' k l = let below : q < h = grind arith in grind arith

  above_pos : (pos : ℕ) → pos ≤ w → 2 ^ w ≡ 2 ^ (w - pos) * 2 ^ pos
  above_pos pos h =
      let e : w ≡ w - pos + pos = omega arith in ap (λ (t : ℕ). 2 ^ t) e ∙ two-pow-add (w - pos) pos

  run_parts : (q s x a y : ℕ) → (q * s + x) * a + y ≡ q * (a * s) + (x * a + y)
  run_parts q s x a y = omega arith

  place_again :
      (d q s x a y : ℕ)
      → (d * 1 + 0) * (a * s * 2) + (q * (a * s) + (x * a + y)) ≡ ((d * 2 + q) * s + x) * a + y
  place_again d q s x a y = omega arith

  later :
      (value placed series : ℕ)
      → value / 2 ^ (placed + (series + 1)) ≡ value / 2 ^ (placed + series) / 2
  later value placed series =
      let e : placed + (series + 1) ≡ placed + series + 1 = omega arith in
      ap (λ (t : ℕ). value / 2 ^ t) e ∙ div-two-pow-add value (placed + series) 1

  -- A clear bit ends the run, and the loop goes on from the updated place.
  cleared :
      (left a series placed pos value set_place : ℕ)
      → pos ≡ a + series
      → suc left + pos ≡ w
      → placed ≤ a
      → set_place < 2 ^ w
      → ((place : ℕ)
          → pos + 1 ≡ pos + 1 + 0
          → left + (pos + 1) ≡ w
          → placed + series ≤ pos + 1
          → place < 2 ^ w
          → masked_inserter w mask left (pos + 1) 0 (placed + series) value place
            ≡ (scatter left
                      (mask / 2 ^ (pos + 1))
                      (value / 2 ^ (placed + series + 0))
                      (place / 2 ^ (pos + 1))
                    * 2 ^ 0
                  + value / 2 ^ (placed + series) % 2 ^ 0)
                * 2 ^ (pos + 1)
              + place % 2 ^ (pos + 1))
      → masked_inserter w mask left
          (pos + 1)
          0
          (placed + series)
          value
          (change_bits w series a set_place (extract_bits w series placed value))
        ≡ ((scatter left
                      (mask / 2 ^ (pos + 1))
                      (value / 2 ^ (placed + series))
                      (set_place / 2 ^ pos / 2)
                    * 2
                  + set_place / 2 ^ pos % 2)
                * 2 ^ series
              + value / 2 ^ placed % 2 ^ series)
            * 2 ^ a
          + set_place % 2 ^ a
  cleared left a series placed pos value set_place at_pos ends below fits rest =
      let q = set_place / 2 ^ pos in
      let x = value / 2 ^ placed % 2 ^ series in
      let y = set_place % 2 ^ a in
      let z = x * 2 ^ a + y in
      let split : 2 ^ pos ≡ 2 ^ a * 2 ^ series =
        ap (λ (t : ℕ). 2 ^ t) at_pos ∙ two-pow-add a series in
      let z-lt : z < 2 ^ pos =
        run-lt a series pos x y at_pos (mod-lt _ (two-pow-pos series)) (mod-lt _ (two-pow-pos a)) in
      let new : change_bits w series a set_place (extract_bits w series placed value)
          ≡ q * 2 ^ pos + z =
        run_placed a series placed pos value set_place at_pos (omega arith) below fits
        ∙ run_parts q (2 ^ series) x (2 ^ a) y
        ∙ ap (λ (t : ℕ). q * t + z) (sym split) in
      let new-lt : q * 2 ^ pos + z < 2 ^ w = rw (above_pos pos (omega arith)) (
        keeps_width q (2 ^ pos) (2 ^ (w - pos)) z (set_place % 2 ^ pos)
          (rw (← above_pos pos (omega arith), div-add-mod' set_place (2 ^ pos)) fits) z-lt) in
      rw
        (
          new,
          rest (q * 2 ^ pos + z) (omega arith) (omega arith) (omega arith) new-lt,
          div-two-pow-add (q * 2 ^ pos + z) pos 1,
          mod-two-pow-add (q * 2 ^ pos + z) pos 1,
          div-of-parts (2 ^ pos) q z z-lt,
          mod-of-parts (2 ^ pos) q z z-lt,
        )
        (rw
          (
            two-pow-add pos 1,
            split,
            mod-one (value / 2 ^ (placed + series)),
            add-zero (placed + series),
          )
          (place_again _ _ _ _ _ _))

  -- The loop has placed `series` bits from `a` on, all but the last run of them in `set_place`.
  pub masked_inserter_lem :
      (left a series placed pos value set_place : ℕ)
      → pos ≡ a + series
      → left + pos ≡ w
      → placed ≤ a
      → set_place < 2 ^ w
      → masked_inserter w mask left pos series placed value set_place
        ≡ (scatter left (mask / 2 ^ pos) (value / 2 ^ (placed + series)) (set_place / 2 ^ pos)
                * 2 ^ series
              + value / 2 ^ placed % 2 ^ series)
            * 2 ^ a
          + set_place % 2 ^ a
  unfolding masked_inserter scatter
  masked_inserter_lem zero a zero placed pos value set_place at_pos ends below fits =
      let e : pos ≡ a = omega arith in rw e (ground (arith, div-add-mod' set_place (2 ^ a)))
  masked_inserter_lem zero a (suc series) placed pos value set_place at_pos ends below fits =
      let off : w - suc series ≡ a = omega arith in
      rw off (
        ground (
          arith,
          run_placed a (suc series) placed pos value set_place at_pos (omega arith) below fits,
        ))
  masked_inserter_lem (suc left) a series placed pos value set_place at_pos ends below fits =
      let off : pos - series ≡ a = omega arith in
      rw (bit_at w mask pos (omega arith), masked_inserter, scatter, ← div-two-pow-add mask pos 1)
        (elim (Bool-cases (mask / 2 ^ pos % 2 == 0)) [
          | inl clear ↦
              rw (clear, masked_inserter, scatter)
                (rw off (
                  cleared left a series placed pos value set_place at_pos ends below fits
                    (masked_inserter_lem left (pos + 1) 0 (placed + series) (pos + 1) value)))
          | inr taken ↦
              rw (taken, masked_inserter, scatter)
                (rw
                  (
                    masked_inserter_lem left a (series + 1) placed (pos + 1) value set_place
                        (omega arith) (omega arith) below fits,
                    later value placed series,
                    div-two-pow-add set_place pos 1,
                    grown placed series (placed + series) value refl,
                    two-pow-add series 1,
                  )
                  (ap (λ (t : ℕ). t + set_place % 2 ^ a) (regroup_longer _ _ _ _ _)))
        ])
