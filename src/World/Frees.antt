-- ===== src/World/Frees.antt =====
-- Counting what is given back to `free`.
use marpa_wrapper.Prelude.{
  ℕ, zero, suc, ◌+◌, ◌≤◌, ◌<◌, ◌≡◌, ◌≢◌, sym, List, [], ◌∷◌, ◌++◌, arith, ◌==◌, if◌then◌else◌,
  get_or, take,
}
use marpa_wrapper.World.{Ptr, null, Call, free, Trace}

abbrev pub is_free_of : Ptr → Call → ℕ
is_free_of p (free q) = if q == p then 1 else 0
is_free_of p _ = 0

-- how often a trace frees a pointer
abbrev pub frees : Ptr → Trace → ℕ
frees p [] = 0
frees p (c ∷ t) = is_free_of p c + frees p t

-- how often a pointer stands in a list
abbrev pub count : Ptr → List Ptr → ℕ
count p [] = 0
count p (q ∷ qs) = (if q == p then 1 else 0) + count p qs

pub count-get_or :
    (xs : List Ptr) (n i : ℕ) (p : Ptr)
    → p ≢ null
    → i < n
    → get_or xs i null ≡ p
    → 1 ≤ count p (take n xs)
count-get_or xs zero i p ne lt e = absurd (omega arith)
count-get_or [] (suc n) i p ne lt e = absurd (ne (sym e))
count-get_or (x ∷ xs) (suc n) zero p ne lt e = ground arith
count-get_or (x ∷ xs) (suc n) (suc i) p ne lt e =
    omega (arith, count-get_or xs n i p ne (omega arith) e)

pub count-append : (p : Ptr) (xs ys : List Ptr) → count p (xs ++ ys) ≡ count p xs + count p ys
count-append p [] ys = omega arith
count-append p (x ∷ xs) ys = omega (arith, count-append p xs ys)
