-- ===== src/Wrapper/Valuation/Endless.antt =====
-- The loop of `marpaWrapper_vb` of src/marpaWrapper.c over the steps of a value, when libmarpa fails.
use marpa_wrapper.Prelude.{ℕ, zero, suc, ◌≡◌, refl, true, arith, ◌∷◌}
use marpa_wrapper.Prelude.Int.{is_minus_two}
use marpa_wrapper.World.{Ptr, marpa, v_step, Call, Trace, Env}
use marpa_wrapper.Stack.{Stack}
use marpa_wrapper.Wrapper.{Wrapper}
use marpa_wrapper.Wrapper.Valuation.{ValueOption, ElementOption}
use marpa_wrapper.Wrapper.Valuation.Steps.{evaluating, value_step, evaluate}

-- a call made so many times
abbrev pub repeated : ℕ → Call → Trace → Trace
repeated zero c t = t
repeated (suc n) c t = repeated n c (c ∷ t)

module _ (env : Env) (w : Wrapper) (o : ValueOption) (e : ElementOption) where
  -- When `marpa_v_step` answers -2, its failure, and goes on answering it, the loop never ends, however
  -- many rounds it is given: no message is logged, the stack stays as it was, and all that the loop
  -- does is to ask again.
  pub evaluate-endless :
      (p : Ptr)
      → ((t : Trace) → is_minus_two (env.value t (marpa (v_step p))) ≡ true)
      → (rounds : ℕ) (s : Stack) (t : Trace)
      → evaluate env w o e rounds p s t ≡ (evaluating, s, repeated rounds (marpa (v_step p)) t)
  unfolding evaluate value_step
  evaluate-endless p fails zero s t = refl
  evaluate-endless p fails (suc rounds) s t =
      rw asked (evaluate-endless p fails rounds s (marpa (v_step p) ∷ t))
    where
      asked :
          evaluate env w o e (suc rounds) p s t
          ≡ evaluate env w o e rounds p s (marpa (v_step p) ∷ t)
      asked = ground (arith, fails t)
