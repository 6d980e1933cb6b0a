-- ===== src/Base/Int.antt =====
-- Signed integers over the native numbers (the library's ℤ stands on the unary ℕ), and the
-- wrap-around of the signed machine words.
use Prim.Native.Nat.{ℕ, suc, ◌+◌, ◌-◌, ◌*◌, ◌%◌, ◌≤◌, ◌<◌}
use mathlib.Core.Path.{◌≡◌}
use mathlib.Core.Bool.{Bool}
use native.Mathlib.Omega.{arith}
use openfilter_pipelines_con.Base.Tests.{ltb, leb, ◌==◌, if◌then◌else◌}

-- `negsuc n` is -(n + 1).
pub data ℤ : Type 0 where
  pos : ℕ → ℤ
  negsuc : ℕ → ℤ

abbrev pub pos_part : ℤ → ℕ
pos_part (pos n) = n
pos_part (negsuc n) = 0

abbrev pub neg_part : ℤ → ℕ
neg_part (pos n) = 0
neg_part (negsuc n) = suc n

-- a - b, as an integer.
abbrev pub sub_ℕ : ℕ → ℕ → ℤ
sub_ℕ a b = if leb b a then pos (a - b) else negsuc (b - a - 1)

infixl 65 ◌+ℤ◌ ◌-ℤ◌
infix 50 ◌≤ℤ◌
unfoldable pub ◌+ℤ◌ : ℤ → ℤ → ℤ
a +ℤ b = sub_ℕ (pos_part a + pos_part b) (neg_part a + neg_part b)

unfoldable pub ◌-ℤ◌ : ℤ → ℤ → ℤ
a -ℤ b = sub_ℕ (pos_part a + neg_part b) (neg_part a + pos_part b)

abbrev pub ◌≤ℤ◌ : ℤ → ℤ → Type 0
a ≤ℤ b = pos_part a + neg_part b ≤ pos_part b + neg_part a

abbrev pub ltb_ℤ : ℤ → ℤ → Bool
ltb_ℤ a b = ltb (pos_part a + neg_part b) (pos_part b + neg_part a)

abbrev pub leb_ℤ : ℤ → ℤ → Bool
leb_ℤ a b = leb (pos_part a + neg_part b) (pos_part b + neg_part a)

abbrev pub eqb_ℤ : ℤ → ℤ → Bool
eqb_ℤ a b = pos_part a + neg_part b == pos_part b + neg_part a

-- The remainder by `m`, in the range 0 … m - 1.
abbrev residue : ℕ → ℤ → ℕ
residue m (pos n) = n % m
residue m (negsuc n) = m - 1 - n % m

-- Two's complement: the value in -half … half - 1 with the same remainder by `2 * half`.
unfoldable pub wrap : ℕ → ℤ → ℤ
wrap half z =
    let r = residue (2 * half) z in if ltb r half then pos r else negsuc (2 * half - 1 - r)

abbrev pub two_31 : ℕ
two_31 = 2147483648

abbrev pub two_63 : ℕ
two_63 = 9223372036854775808

abbrev pub int32 : ℤ → ℤ
int32 = wrap two_31

abbrev pub int64 : ℤ → ℤ
int64 = wrap two_63

-- A number that fits the word is not changed.
pub wrap32_pos : (n : ℕ) → n < two_31 → int32 (pos n) ≡ pos n
unfolding wrap
wrap32_pos n h = ground arith

pub wrap64_id : (z : ℤ) → pos_part z < two_63 → neg_part z ≤ two_63 → int64 z ≡ z
unfolding wrap
wrap64_id z h k = ground arith

-- The difference of two `int64`.
unfoldable pub sub64 : ℤ → ℤ → ℤ
sub64 a b = int64 (a -ℤ b)

abbrev two_62 : ℕ
two_62 = 4611686018427387904

-- A difference from which one more number is taken.
pub sub64-sub :
    (a b c : ℕ) → a < two_62 → b + c < two_62 → sub64 (sub_ℕ a b) (pos c) ≡ sub_ℕ a (b + c)
unfolding sub64 ◌-ℤ◌
sub64-sub a b c h k = ground (arith, wrap64_id (sub_ℕ a (b + c)))

pub sub64_pos : (a b : ℕ) → a < two_62 → b < two_62 → sub64 (pos a) (pos b) ≡ sub_ℕ a b
unfolding sub64 ◌-ℤ◌
sub64_pos a b h k = ground (arith, wrap64_id (sub_ℕ a b))
