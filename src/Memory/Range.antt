-- ===== src/Memory/Range.antt =====
-- include/besm-666/util/range.hpp: the class `Range`, over 64-bit addresses.
use besm.Prelude.{ℕ, ◌≤◌, ◌<◌, ltb, leb, ◌&&◌, ◌||◌, Bool, true, ◌≡◌, ◌↔◌, arith}
use besm.BitMagic.{sub}

-- The positions from `left_border` to below `right_border`.
pub record Range : Type 0 where
  pub left_border : ℕ
  pub right_border : ℕ

unfoldable pub contains : Range → ℕ → Bool
contains range position = leb range.left_border position && ltb position range.right_border

-- `contains(Range)`
unfoldable pub contains_range : Range → Range → Bool
contains_range range other =
    leb range.left_border other.left_border && ltb other.right_border range.right_border

unfoldable pub intersects : Range → Range → Bool
unfolding contains
intersects range other =
    contains range other.left_border
    || contains range other.right_border
    || contains other range.left_border
    || contains other range.right_border

unfoldable pub size : Range → ℕ
unfolding sub
size range = sub 64 range.right_border range.left_border

pub contains-left :
    (range : Range) (position : ℕ) → contains range position ≡ true → range.left_border ≤ position
unfolding contains
contains-left range position h = ground arith

pub contains-right :
    (range : Range) (position : ℕ) → contains range position ≡ true → position < range.right_border
unfolding contains
contains-right range position h = ground arith

pub contains-intro :
    (range : Range) (position : ℕ)
    → range.left_border ≤ position
    → position < range.right_border
    → contains range position ≡ true
unfolding contains
contains-intro range position h k = ground arith

-- Of ranges that hold a position: they meet, or one begins where the other ends.
pub intersects_lem :
    (range other : Range)
    → range.left_border < range.right_border
    → other.left_border < other.right_border
    → (intersects range other ≡ true)
      ↔ ((range.left_border ≤ other.right_border) × (other.left_border ≤ range.right_border))
unfolding intersects contains
intersects_lem range other h k = ground arith
