-- ===== src/Prelude/Int.antt =====
-- C integers. `int` is ℤ, a sign and a native number; `size_t` is a native number below 2^64, and
-- what the program computes with it wraps around.
use Prim.Native.Nat.{ℕ, suc, ◌+◌, ◌-◌, ◌*◌, ◌%◌, ◌^◌, ◌≤◌}
use mathlib.Core.Bool.{Bool}
use marpa_wrapper.Prelude.Tests.{ltb, leb, ◌==◌, if◌then◌else◌}

-- `negsuc n` is -(n + 1).
pub data ℤ : Type 0 where
  pos : ℕ → ℤ
  negsuc : ℕ → ℤ

abbrev pub pos_part : ℤ → ℕ
pos_part (pos n) = n
pos_part (negsuc n) = 0

abbrev pub neg_part : ℤ → ℕ
neg_part (pos n) = 0
neg_part (negsuc n) = suc n

-- a - b, as an integer.
abbrev pub sub_ℕ : ℕ → ℕ → ℤ
sub_ℕ a b = if leb b a then pos (a - b) else negsuc (b - a - 1)

infixl 65 ◌+ℤ◌
infix 50 ◌≤ℤ◌
unfoldable pub ◌+ℤ◌ : ℤ → ℤ → ℤ
a +ℤ b = sub_ℕ (pos_part a + pos_part b) (neg_part a + neg_part b)

infixl 65 ◌-ℤ◌
unfoldable pub ◌-ℤ◌ : ℤ → ℤ → ℤ
a -ℤ b = sub_ℕ (pos_part a + neg_part b) (pos_part b + neg_part a)

abbrev pub ◌≤ℤ◌ : ℤ → ℤ → Type 0
a ≤ℤ b = pos_part a + neg_part b ≤ pos_part b + neg_part a

abbrev pub ltb_ℤ : ℤ → ℤ → Bool
ltb_ℤ a b = ltb (pos_part a + neg_part b) (pos_part b + neg_part a)

abbrev pub eqb_ℤ : ℤ → ℤ → Bool
eqb_ℤ a b = (pos_part a + neg_part b) == (pos_part b + neg_part a)

-- i < 0, i == -2 and i == -1, the tests on what libmarpa returns
abbrev pub is_negative : ℤ → Bool
is_negative i = ltb_ℤ i (pos 0)

abbrev pub is_minus_two : ℤ → Bool
is_minus_two i = eqb_ℤ i (negsuc 1)

abbrev pub is_minus_one : ℤ → Bool
is_minus_one i = eqb_ℤ i (negsuc 0)

-- `size_t` and `unsigned int` on the platforms that the library is built for
abbrev pub size_mod : ℕ
size_mod = 2 ^ 64

abbrev pub uint_mod : ℕ
uint_mod = 2 ^ 32

abbrev pub mul_size : ℕ → ℕ → ℕ
mul_size a b = (a * b) % size_mod

-- An `int` or an `ssize_t` as a `size_t`.
abbrev pub to_size : ℤ → ℕ
to_size (pos n) = n % size_mod
to_size (negsuc n) = (size_mod - (n + 1)) % size_mod

-- sizeof(void *)
abbrev pub sizeof_pointer : ℕ
sizeof_pointer = 8

-- No object is larger than PTRDIFF_MAX bytes.
abbrev pub ptrdiff_max : ℕ
ptrdiff_max = 2 ^ 63 - 1
