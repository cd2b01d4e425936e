-- ===== src/Logger/Default/Writes.antt =====
-- The loop of the default callback of src/genericLogger.c that writes the line.
use marpa_wrapper.Prelude.{
  ℕ, zero, suc, ◌+◌, ◌-◌, ◌≤◌, ◌<◌, ◌≡◌, inl, inr, sym, ap, ◌∙◌, true, false, some, List, [], ◌∷◌,
  ◌++◌, arith, ltb, Bool-cases,
}
use marpa_wrapper.Prelude.Int.{pos, pos_part, ◌+ℤ◌, to_size, ptrdiff_max}
use mathlib.Core.List.{append-nil, append_assoc}
use marpa_wrapper.World.{Ptr, Call, Trace, Env, write}
use marpa_wrapper.Logger.Default.{write_all}

-- so many addresses from one on
abbrev pub addresses : (count : ℕ) → Ptr → List Ptr
addresses zero p = []
addresses (suc n) p = p ∷ addresses n (p + 1)

addresses-add : (m n : ℕ) (p : Ptr) → addresses (m + n) p ≡ addresses m p ++ addresses n (p + m)
addresses-add zero n p = ground arith
addresses-add (suc m) n p =
    let counted : suc m + n ≡ suc (m + n) = omega arith in
    let from : p + suc m ≡ p + 1 + m = omega arith in rw (counted, from, addresses-add m n (p + 1))

-- the addresses of the bytes that `write` took, the oldest first
abbrev pub sent_by : Env → Trace → Call → List Ptr
sent_by env t (write p n) = addresses (pos_part (env.value t (write p n))) p
sent_by env t _ = []

abbrev pub sent : Env → Trace → List Ptr
sent env [] = []
sent env (c ∷ t) = sent env t ++ sent_by env t c

-- A `write` of something takes at least one byte, and at most what it is given.
pub record IsWriter (env : Env) : Type 0 where
  pub takes :
      (t : Trace) (p : Ptr) (n : ℕ)
      → 0 < n
      → (m : ℕ) × (env.value t (write p n) ≡ pos m) × (0 < m) × (m ≤ n)

pos-add : (k m : ℕ) → pos k +ℤ pos m ≡ pos (k + m)
unfolding ◌+ℤ◌
pos-add k m = ground arith

module _ {S : Type 0} (env : Env) (writer : IsWriter env) where
  pub write_all_from :
      (rounds : ℕ) (p : Ptr) (count k : ℕ) (s : S) (t : Trace)
      → count ≤ ptrdiff_max
      → k ≤ count
      → count < rounds + k
      → let (result, _, t') = write_all env rounds p count (pos k) s t in
        (result ≡ some (pos count)) × (sent env t' ≡ sent env t ++ addresses (count - k) (p + k))
  unfolding write_all
  write_all_from zero p count k s t small within enough = absurd (omega arith)
  write_all_from (suc rounds) p count k s t small within enough = elim (Bool-cases (ltb k count)) [
    | inr done ↦ rw (ended done) (ground arith, nothing_left (ground arith))
    | inl more ↦
        let (m, e, some_taken, fits) = writer.takes t (p + k) (count - k) (ground arith) in
        rw (goes_on more m e) (
          went_on m e fits (
            write_all_from rounds p count (k + m) s (write (p + k) (count - k) ∷ t) small
              (omega (arith, fits, within)) (omega (arith, some_taken, enough))))
  ]
    where
      at : to_size (pos k) ≡ k
      at = omega arith

      ended :
          ltb k count ≡ false
          → write_all env (suc rounds) p count (pos k) s t ≡ (some (pos k), s, t)
      ended done = ground (arith, at)

      nothing_left : k ≡ count → sent env t ≡ sent env t ++ addresses (count - k) (p + k)
      nothing_left same =
          let none_left : count - k ≡ 0 = omega (arith, same) in rw none_left (sym (append-nil _))

      goes_on :
          ltb k count ≡ true
          → (m : ℕ) → env.value t (write (p + k) (count - k)) ≡ pos m
          → write_all env (suc rounds) p count (pos k) s t
            ≡ write_all env rounds p count (pos (k + m)) s (write (p + k) (count - k) ∷ t)
      goes_on more m e = ground (arith, at, e, pos-add k m)

      went_on :
          (m : ℕ)
          → env.value t (write (p + k) (count - k)) ≡ pos m
          → m ≤ count - k
          → let (result, _, t') =
              write_all env rounds p count (pos (k + m)) s (write (p + k) (count - k) ∷ t) in
            (result ≡ some (pos count))
              × (sent env t'
                  ≡ (sent env t
                      ++ addresses (pos_part (env.value t (write (p + k) (count - k)))) (p + k))
                    ++ addresses (count - (k + m)) (p + (k + m)))
            → (result ≡ some (pos count))
              × (sent env t' ≡ sent env t ++ addresses (count - k) (p + k))
      went_on m e fits (returned, took) =
          let parts : count - k ≡ m + (count - (k + m)) = omega (arith, fits) in
          let from : p + (k + m) ≡ p + k + m = omega arith in
          (
            returned,
            took
                ∙ rw (e, from, append_assoc (sent env t) (addresses m (p + k)) _)
                    (ap (λ (l : List Ptr). sent env t ++ l)
                      (sym
                        (ap (λ (n : ℕ). addresses n (p + k)) parts ∙ addresses-add m _ (p + k)))),
          )

-- The loop of the default callback, where every `write` takes something: as many rounds as there are
-- bytes, and one, are enough, and what it sent is each byte of the line, once and in order.
pub write_all-sends :
    {S : Type 0} (env : Env)
    → IsWriter env
    → (p : Ptr) (count : ℕ) (s : S) (t : Trace) → count ≤ ptrdiff_max
    → let (result, _, t') = write_all env (count + 1) p count (pos 0) s t in
      (result ≡ some (pos count)) × (sent env t' ≡ sent env t ++ addresses count p)
write_all-sends env writer p count s t small =
    let (returned, took) =
      write_all_from env writer (count + 1) p count 0 s t small (omega arith) (omega arith) in
    let whole : count - 0 ≡ count = omega arith in
    let start : p + 0 ≡ p = omega arith in (returned, rw (whole, start) at took)
