-- ===== src/Logger/Default/Failures.antt =====
-- The loop of the default callback of src/genericLogger.c, where a `write` may fail: it never reads
-- outside the line, and what it sends twice.
use marpa_wrapper.Prelude.{
  ℕ, zero, suc, ◌+◌, ◌-◌, ◌≤◌, ◌<◌, ◌≡◌, ◌≢◌, ◌⊎◌, inl, inr, refl, none, some, [], ◌∷◌, arith, ltb,
  leb, ◌&&◌, if◌then◌else◌, Bool-cases,
}
use marpa_wrapper.Prelude.Int.{ℤ, pos, negsuc, ◌+ℤ◌, to_size, ptrdiff_max}
use marpa_wrapper.World.{Ptr, Call, Trace, Env, write}
use marpa_wrapper.Logger.Default.{write_all}

-- `write` answers -1, its failure, or takes no more than it is given.
pub record IsHonest (env : Env) : Type 0 where
  pub takes :
      (t : Trace) (p : Ptr) (n : ℕ)
      → (env.value t (write p n) ≡ negsuc 0)
        ⊎ ((m : ℕ) × (env.value t (write p n) ≡ pos m) × (m ≤ n))

-- how often a trace passes bytes to `write` that are outside the `count` bytes from `p` on
abbrev pub is_stray : Ptr → ℕ → Call → ℕ
is_stray p count (write q n) = if leb p q && leb (q + n) (p + count) then 0 else 1
is_stray p count _ = 0

abbrev pub strays : Ptr → ℕ → Trace → ℕ
strays p count [] = 0
strays p count (c ∷ t) = is_stray p count c + strays p count t

-- How far the loop can be: at -1, or not past the end.
abbrev pub IsPlace : ℕ → ℤ → Type 0
IsPlace count written = (written ≡ negsuc 0) ⊎ ((k : ℕ) × (written ≡ pos k) × (k ≤ count))

add-IsPlace :
    (count k : ℕ) (n : ℤ)
    → k < count
    → (n ≡ negsuc 0) ⊎ ((m : ℕ) × (n ≡ pos m) × (m ≤ count - k))
    → IsPlace count (pos k +ℤ n)
unfolding ◌+ℤ◌
add-IsPlace count zero n lt (inl failed) = inl (ground arith)
add-IsPlace count (suc k) n lt (inl failed) = inr (k, ground arith, omega arith)
add-IsPlace count k n lt (inr (m, e, fits)) = inr (k + m, ground arith, omega arith)

module _ {S : Type 0} (env : Env) (honest : IsHonest env) where
  -- Whatever `write` answers, -1 or a count, every call of it stays inside the line, and the loop ends
  -- only when the whole line was taken or at -1, which as a `size_t` is past every end.
  pub write_all_inside :
      (rounds : ℕ) (p : Ptr) (count : ℕ) (written : ℤ) (s : S) (t : Trace)
      → count ≤ ptrdiff_max
      → IsPlace count written
      → let (result, _, t') = write_all env rounds p count written s t in
        (strays p count t' ≡ strays p count t)
        × ((result ≡ none) ⊎ (result ≡ some (pos count)) ⊎ (result ≡ some (negsuc 0)))
  unfolding write_all
  write_all_inside zero p count written s t small place = (refl, inl refl)
  write_all_inside (suc rounds) p count written s t small (inl failed) = ground arith
  write_all_inside (suc rounds) p count written s t small (inr (k, e, within)) =
      elim (Bool-cases (ltb k count)) [
        | inr done ↦ ground (arith, at)
        | inl more ↦ ground (
          arith,
          at,
          write_all_inside rounds p count (pos k +ℤ env.value t (write (p + k) (count - k))) s
              (write (p + k) (count - k) ∷ t) small
              (add-IsPlace count k _ (ground arith) (honest.takes t (p + k) (count - k))),
        )
      ]
    where
      at : to_size (pos k) ≡ k
      at = omega arith

-- A `write` that fails takes the loop one byte back: that byte was sent, and is sent again. A first
-- `write` that fails ends the loop, with nothing sent.
pub write_all_repeats :
    {S : Type 0} (env : Env) (rounds : ℕ) (p : Ptr) (count k : ℕ) (s : S) (t : Trace)
    → count ≤ ptrdiff_max
    → k < count
    → env.value t (write (p + k) (count - k)) ≡ negsuc 0
    → let failed = write (p + k) (count - k) ∷ t in
      ((k ≢ 0)
        × (write_all env (suc (suc rounds)) p count (pos k) s t ≡ (
            write_all env rounds p count
              (pos (k - 1) +ℤ env.value failed (write (p + (k - 1)) (count - (k - 1))))
              s
              (write (p + (k - 1)) (count - (k - 1)) ∷ failed))))
      ⊎ ((k ≡ 0)
          × (write_all env (suc (suc rounds)) p count (pos k) s t ≡ (some (negsuc 0), s, failed)))
unfolding write_all ◌+ℤ◌
write_all_repeats env rounds p count zero s t small lt failed = inr (refl, ground arith)
write_all_repeats env rounds p count (suc k) s t small lt failed = inl (omega arith, ground arith)
