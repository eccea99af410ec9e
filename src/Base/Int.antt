-- ===== src/Base/Int.antt =====
-- Signed integers over the native numbers, under the library's names (its ℤ stands on the unary
-- ℕ), with Go's truncated division and the wrap-around of int32 and int64.
use transfergw.Base.{
  ℕ, suc, ◌+◌, ◌-◌, ◌*◌, ◌/◌, ◌%◌, ◌≤◌, ◌<◌, ◌≡◌, refl, Bool, true, false, arith, ltb, leb,
  if◌then◌else◌,
}

-- `negsuc n` is -(n + 1).
pub data ℤ : Type 0 where
  pos : ℕ → ℤ
  negsuc : ℕ → ℤ

abbrev pub pos_part : ℤ → ℕ
pos_part (pos n) = n
pos_part (negsuc n) = 0

abbrev pub neg_part : ℤ → ℕ
neg_part (pos n) = 0
neg_part (negsuc n) = suc n

-- a - b, as an integer.
abbrev pub sub_ℕ : ℕ → ℕ → ℤ
sub_ℕ a b = if leb b a then pos (a - b) else negsuc (b - a - 1)

infixl 65 ◌+ℤ◌ ◌-ℤ◌
infixl 70 ◌*ℤ◌ ◌/ℤ◌
infix 50 ◌≤ℤ◌ ◌<ℤ◌
unfoldable pub ◌+ℤ◌ : ℤ → ℤ → ℤ
a +ℤ b = sub_ℕ (pos_part a + pos_part b) (neg_part a + neg_part b)

unfoldable pub ◌-ℤ◌ : ℤ → ℤ → ℤ
a -ℤ b = sub_ℕ (pos_part a + neg_part b) (neg_part a + pos_part b)

unfoldable pub ◌*ℤ◌ : ℤ → ℤ → ℤ
a *ℤ b =
    sub_ℕ (pos_part a * pos_part b + neg_part a * neg_part b)
      (pos_part a * neg_part b + neg_part a * pos_part b)

-- Go's integer division rounds towards zero.
unfoldable pub ◌/ℤ◌ : ℤ → ℤ → ℤ
pos a /ℤ pos b = pos (a / b)
pos a /ℤ negsuc b = sub_ℕ 0 (a / suc b)
negsuc a /ℤ pos b = sub_ℕ 0 (suc a / b)
negsuc a /ℤ negsuc b = pos (suc a / suc b)

abbrev pub ◌≤ℤ◌ : ℤ → ℤ → Type 0
a ≤ℤ b = pos_part a + neg_part b ≤ pos_part b + neg_part a

abbrev pub ◌<ℤ◌ : ℤ → ℤ → Type 0
a <ℤ b = pos_part a + neg_part b < pos_part b + neg_part a

abbrev pub ltb_ℤ : ℤ → ℤ → Bool
ltb_ℤ a b = ltb (pos_part a + neg_part b) (pos_part b + neg_part a)

abbrev pub leb_ℤ : ℤ → ℤ → Bool
leb_ℤ a b = leb (pos_part a + neg_part b) (pos_part b + neg_part a)

abbrev pub eqb_ℤ : ℤ → ℤ → Bool
eqb_ℤ (pos a) (pos b) = elim (leb a b) [ true ↦ leb b a | false ↦ false ]
eqb_ℤ (negsuc a) (negsuc b) = elim (leb a b) [ true ↦ leb b a | false ↦ false ]
eqb_ℤ _ _ = false

-- The remainder in 0 .. w - 1, and its reading as a signed word.
abbrev pub residue : ℕ → ℤ → ℕ
residue w (pos n) = n % w
residue w (negsuc n) = w - 1 - n % w

abbrev pub signed : ℕ → ℕ → ℕ → ℤ
signed half w m = if ltb m half then pos m else sub_ℕ m w

-- The conversion int32(z), and what an int32 operation leaves of its exact result z.
unfoldable pub i32 : ℤ → ℤ
i32 z = signed 2147483648 4294967296 (residue 4294967296 z)

-- The same at 64 bits.
unfoldable pub i64 : ℤ → ℤ
i64 z = signed 9223372036854775808 18446744073709551616 (residue 18446744073709551616 z)

pub +ℤ_parts :
    (a b : ℤ)
    → pos_part (a +ℤ b) + neg_part a + neg_part b ≡ neg_part (a +ℤ b) + pos_part a + pos_part b
unfolding ◌+ℤ◌
+ℤ_parts a b = ground arith

pub -ℤ_parts :
    (a b : ℤ)
    → pos_part (a -ℤ b) + neg_part a + pos_part b ≡ neg_part (a -ℤ b) + pos_part a + neg_part b
unfolding ◌-ℤ◌
-ℤ_parts a b = ground arith

pub eq_of_parts : (a b : ℤ) → pos_part a + neg_part b ≡ pos_part b + neg_part a → a ≡ b
eq_of_parts a b h = ground arith

pub ruleset int_laws = (arith, +ℤ_parts, -ℤ_parts, eq_of_parts)

-- A value in the range of int32 stays what it is.
pub i32_of_fits : (z : ℤ) → negsuc 2147483647 ≤ℤ z → z ≤ℤ pos 2147483647 → i32 z ≡ z
unfolding i32
i32_of_fits (pos n) l h = ground arith
i32_of_fits (negsuc n) l h = ground arith

-- The result of every int32 operation lies in the range of int32.
pub i32_bounds : (z : ℤ) → (negsuc 2147483647 ≤ℤ i32 z) × (i32 z ≤ℤ pos 2147483647)
unfolding i32
i32_bounds (pos n) = ground arith
i32_bounds (negsuc n) = ground arith

pub eqb_ℤ_refl : (z : ℤ) → eqb_ℤ z z ≡ true
eqb_ℤ_refl (pos n) = ground arith
eqb_ℤ_refl (negsuc n) = ground arith
