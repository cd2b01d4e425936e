-- ===== src/Wrapper/ProgressReport/Range.antt =====
-- Which Earley sets a progress report accepts, and the order of its items.
use Prim.Native.String.{String}
use marpa_wrapper.Prelude.{◌≡◌, ◌≢◌, ◌⊎◌, inl, inr, true, false, arith, ◌∷◌, Bool-cases}
use marpa_wrapper.Prelude.Int.{ℤ, pos, negsuc, pos_part, ◌+ℤ◌, ◌-ℤ◌, ◌≤ℤ◌, ltb_ℤ}
use marpa_wrapper.World.{null, Trace, Env, marpa, log, error, na, r_latest_earley_set}
use marpa_wrapper.Buf.{empty, free_all}
use marpa_wrapper.Buf.Release.{free_all_lem}
use marpa_wrapper.Wrapper.{Wrapper}
use marpa_wrapper.Wrapper.Recognize.{PtrSorter}
use marpa_wrapper.Wrapper.ProgressReport.{from_end, is_outside, report, progress}

-- The Earley set that a bound means: -1 is the latest, -2 the one before, and so on.
abbrev pub bound : (latest : ℤ) → ℤ → ℤ
bound latest (pos n) = pos n
bound latest (negsuc n) = latest -ℤ pos n

from_end-bound : (latest i : ℤ) → from_end latest i ≡ bound latest i
unfolding ◌+ℤ◌ ◌-ℤ◌
from_end-bound (pos m) (pos n) = ground arith
from_end-bound (negsuc m) (pos n) = ground arith
from_end-bound (pos m) (negsuc n) = ground arith
from_end-bound (negsuc m) (negsuc n) = ground arith

-- Earley sets from `first` to `last`, in order and all of them there.
pub record IsWindow (latest first last : ℤ) : Type 0 where
  pub from_start : pos 0 ≤ℤ first
  pub in_order : first ≤ℤ last
  pub to_latest : last ≤ℤ latest

IsWindow-tests :
    (latest first last : ℤ)
    → ((is_outside latest first ≡ false)
        × (is_outside latest last ≡ false)
        × (ltb_ℤ last first ≡ false)
        × IsWindow latest first last)
      ⊎ ((¬ IsWindow latest first last)
          × ((is_outside latest first ≡ true)
              ⊎ ((is_outside latest first ≡ false) × (is_outside latest last ≡ true))
              ⊎ ((is_outside latest first ≡ false)
                  × (is_outside latest last ≡ false)
                  × (ltb_ℤ last first ≡ true))))
IsWindow-tests latest first last = elim (Bool-cases (is_outside latest first)) [
  | inl first_out ↦
      inr ((λ v. ground (arith, v.from_start, v.in_order, v.to_latest)), inl first_out)
  | inr first_in ↦ elim (Bool-cases (is_outside latest last)) [
    | inl last_out ↦ inr (
      (λ v. ground (arith, v.from_start, v.in_order, v.to_latest)),
      inr (inl (first_in, last_out)),
    )
    | inr last_in ↦ elim (Bool-cases (ltb_ℤ last first)) [
      | inl crossed ↦ inr (
        (λ v. ground (arith, v.from_start, v.in_order, v.to_latest)),
        inr (inr (first_in, last_in, crossed)),
      )
      | inr ordered ↦ inl (
        first_in,
        last_in,
        ordered,
        record { from_start = ground arith; in_order = ground arith; to_latest = ground arith },
      )
    ]
  ]
]

module _ (env : Env) (qsort : PtrSorter) where
  -- the same with the bounds that the code computes
  progress_computed :
      (first last : ℤ) (w : Wrapper) (t : Trace)
      → w.recognizer ≢ null
      → let c = marpa (r_latest_earley_set w.recognizer) in
        let t' = (free_all w.progress t).2 in
        let latest = env.value t' c in
        let w' = record w { progress = empty } in
        (IsWindow latest (from_end latest first) (from_end latest last)
          × (progress env qsort first last w t
              ≡ report env qsort
                  (pos_part (from_end latest first))
                  (pos_part (from_end latest last))
                  w'
                  (c ∷ t')))
        ⊎ ((¬ IsWindow latest (from_end latest first) (from_end latest last))
            × ((text : String) × (progress env qsort first last w t
                  ≡ (false, w', log error na (pos 0) text ∷ c ∷ t'))))
  unfolding progress
  progress_computed first last w t started =
      elim (IsWindow-tests latest (from_end latest first) (from_end latest last)) [
        | inl (first_in, last_in, ordered, window) ↦ inl (window, ground (arith, emptied))
        | inr (out, inl first_out) ↦ inr (out, ("starti must be in range", ground (arith, emptied)))
        | inr (out, inr (inl (first_in, last_out))) ↦
            inr (out, ("endi must be in range", ground (arith, emptied)))
        | inr (out, inr (inr (first_in, last_in, crossed))) ↦
            inr (out, ("[starti,endi] range is empty", ground (arith, emptied)))
      ]
    where
      latest : ℤ
      latest = env.value (free_all w.progress t).2 (marpa (r_latest_earley_set w.recognizer))

      emptied : (free_all w.progress t).1 ≡ empty
      emptied = (free_all_lem 1 w.progress t (omega arith)).0

  -- On a started wrapper `marpaWrapper_r_progressb` empties the report before, takes a negative bound
  -- from the end, -1 for the latest Earley set, and makes the report exactly if the bounds then are a
  -- window of the Earley sets there are; otherwise it returns FALSE with one message and an empty
  -- report.
  pub progress-IsWindow :
      (first last : ℤ) (w : Wrapper) (t : Trace)
      → w.recognizer ≢ null
      → let c = marpa (r_latest_earley_set w.recognizer) in
        let t' = (free_all w.progress t).2 in
        let latest = env.value t' c in
        let w' = record w { progress = empty } in
        (IsWindow latest (bound latest first) (bound latest last)
          × (progress env qsort first last w t
              ≡ report env qsort
                  (pos_part (bound latest first))
                  (pos_part (bound latest last))
                  w'
                  (c ∷ t')))
        ⊎ ((¬ IsWindow latest (bound latest first) (bound latest last))
            × ((text : String) × (progress env qsort first last w t
                  ≡ (false, w', log error na (pos 0) text ∷ c ∷ t'))))
  progress-IsWindow first last w t started =
      rw (← from_end-bound latest first, ← from_end-bound latest last)
        (progress_computed first last w t started)
    where
      latest : ℤ
      latest = env.value (free_all w.progress t).2 (marpa (r_latest_earley_set w.recognizer))
