-- ===== src/Wrapper/Recognize/Order.antt =====
-- The comparison of expected terminals, and where `qsort` may be given it.
use marpa_wrapper.Prelude.{◌≡◌, ◌↔◌, true, false, arith}
use marpa_wrapper.Prelude.Int.{ℤ, pos, is_negative, ltb_ℤ}
use marpa_wrapper.Wrapper.{Symbol}
use marpa_wrapper.Wrapper.Recognize.{symbol_cmp}

-- Two answers of a comparison that say the same of two elements and of them swapped.
abbrev pub IsOpposite : ℤ → ℤ → Type 0
IsOpposite i j = (is_negative i ≡ ltb_ℤ (pos 0) j) × (ltb_ℤ (pos 0) i ≡ is_negative j)

-- The comparison that `qsort` is given says the same of two symbols and of them swapped exactly if
-- they have not both one predicted size and no first character.
pub symbol_cmp-IsOpposite :
    (a b : Symbol)
    → IsOpposite (symbol_cmp a b) (symbol_cmp b a)
      ↔ ¬ (
          (a.option.size ≡ b.option.size)
          × (is_negative a.option.first_char ≡ true)
          × (is_negative b.option.first_char ≡ true))
unfolding symbol_cmp
symbol_cmp-IsOpposite a b = ground arith

-- Among symbols that have a first character the comparison is transitive.
pub symbol_cmp_trans :
    (a b c : Symbol)
    → is_negative a.option.first_char ≡ false
    → is_negative b.option.first_char ≡ false
    → is_negative c.option.first_char ≡ false
    → ltb_ℤ (pos 0) (symbol_cmp a b) ≡ false
    → ltb_ℤ (pos 0) (symbol_cmp b c) ≡ false
    → ltb_ℤ (pos 0) (symbol_cmp a c) ≡ false
unfolding symbol_cmp
symbol_cmp_trans a b c has_a has_b has_c first second = ground arith
