-- ===== src/Prelude/Int.antt =====
-- Go's `int`, as an unbounded integer and, where the code may wrap around, as one of 64 bits, under the
-- library's names over the native numbers. Sums and orders go through the two parts of an integer, which
-- are numbers that `omega` reads.
use Prim.Native.Nat.{ℕ, suc, ◌+◌, ◌-◌, ◌/◌, ◌%◌, ◌≤◌, ◌<◌}
use mathlib.Core.Path.{◌≡◌}
use mathlib.Core.Bool.{Bool}
use native.Mathlib.Omega.{arith}
use focal_span.Prelude.Tests.{ltb, leb, ◌==◌, if◌then◌else◌}

-- `negsuc n` is -(n + 1).
pub data ℤ : Type 0 where
  pos : ℕ → ℤ
  negsuc : ℕ → ℤ

abbrev pub pos_part : ℤ → ℕ
pos_part (pos n) = n
pos_part (negsuc n) = 0

abbrev pub neg_part : ℤ → ℕ
neg_part (pos n) = 0
neg_part (negsuc n) = suc n

abbrev pub sub_ℕ : ℕ → ℕ → ℤ
sub_ℕ a b = if leb b a then pos (a - b) else negsuc (b - a - 1)

infixl 65 ◌+ℤ◌ ◌-ℤ◌
infix 50 ◌≤ℤ◌ ◌<ℤ◌
unfoldable pub ◌+ℤ◌ : ℤ → ℤ → ℤ
a +ℤ b = sub_ℕ (pos_part a + pos_part b) (neg_part a + neg_part b)

unfoldable pub ◌-ℤ◌ : ℤ → ℤ → ℤ
a -ℤ b = sub_ℕ (pos_part a + neg_part b) (neg_part a + pos_part b)

abbrev pub ◌≤ℤ◌ : ℤ → ℤ → Type 0
a ≤ℤ b = pos_part a + neg_part b ≤ pos_part b + neg_part a

abbrev pub ◌<ℤ◌ : ℤ → ℤ → Type 0
a <ℤ b = pos_part a + neg_part b < pos_part b + neg_part a

abbrev pub ltb_ℤ : ℤ → ℤ → Bool
ltb_ℤ a b = ltb (pos_part a + neg_part b) (pos_part b + neg_part a)

abbrev pub leb_ℤ : ℤ → ℤ → Bool
leb_ℤ a b = leb (pos_part a + neg_part b) (pos_part b + neg_part a)

abbrev pub eqb_ℤ : ℤ → ℤ → Bool
eqb_ℤ a b = (pos_part a + neg_part b) == (pos_part b + neg_part a)

-- One lemma for each operation lets `omega` work with the operations shut, at any depth.
pub +ℤ_parts :
    (a b : ℤ)
    → pos_part (a +ℤ b) + neg_part a + neg_part b ≡ neg_part (a +ℤ b) + pos_part a + pos_part b
unfolding ◌+ℤ◌
+ℤ_parts a b = ground arith

pub -ℤ_parts :
    (a b : ℤ)
    → pos_part (a -ℤ b) + neg_part a + pos_part b ≡ neg_part (a -ℤ b) + pos_part a + neg_part b
unfolding ◌-ℤ◌
-ℤ_parts a b = ground arith

pub eq_of_parts : (a b : ℤ) → pos_part a + neg_part b ≡ pos_part b + neg_part a → a ≡ b
eq_of_parts a b h = ground arith

pub ruleset int_laws = (arith, +ℤ_parts, -ℤ_parts, eq_of_parts)

-- Go's `int` of 64 bits, for the code whose sums and differences may wrap around
abbrev pub int_range : ℕ
int_range = 0x1_0000_0000_0000_0000

-- the integers from this one on have no `int`
abbrev pub int_end : ℕ
int_end = 0x8000_0000_0000_0000

abbrev pub as_word : ℤ → ℕ
as_word (pos n) = n % int_range
as_word (negsuc n) = int_range - 1 - n % int_range

abbrev pub as_int : ℕ → ℤ
as_int w = if ltb w int_end then pos w else negsuc (int_range - 1 - w)

unfoldable pub add_int : ℤ → ℤ → ℤ
add_int a b = as_int (as_word (a +ℤ b))

unfoldable pub sub_int : ℤ → ℤ → ℤ
sub_int a b = as_int (as_word (a -ℤ b))

-- `/`, which truncates, by a positive integer
abbrev pub quotient : ℤ → ℕ → ℤ
quotient (pos n) d = pos (n / d)
quotient (negsuc n) d = sub_ℕ 0 (suc n / d)

pub add_int_pos : (a b : ℕ) → a + b < int_end → add_int (pos a) (pos b) ≡ pos (a + b)
unfolding add_int ◌+ℤ◌
add_int_pos a b h = ground (arith, h)

pub sub_int_pos : (a b : ℕ) → b ≤ a → a < int_end → sub_int (pos a) (pos b) ≡ pos (a - b)
unfolding sub_int ◌-ℤ◌
sub_int_pos a b h k = ground (arith, h, k)
