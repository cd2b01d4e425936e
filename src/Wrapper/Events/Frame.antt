-- ===== src/Wrapper/Events/Frame.antt =====
-- `_marpaWrapper_event` changes no field of the wrapper.
use marpa_wrapper.Prelude.{
  ℕ, zero, suc, ◌+◌, ◌≡◌, refl, inl, inr, List, [], ◌∷◌, ◌++◌, arith, Option-cases,
}
use marpa_wrapper.Prelude.Int.{ℤ, pos_part, mul_size}
use marpa_wrapper.World.{Trace, Env, marpa, malloc, g_event_count}
use marpa_wrapper.Wrapper.{Wrapper}
use marpa_wrapper.Wrapper.Events.{
  Event, Sorter, Kind, handle, event_step, collect, deliver, event, sizeof_event,
}

module _ (env : Env) where
  handle-state : (i : ℕ) (k : Kind) (w : Wrapper) (t : Trace) → (handle env i k w t).1 ≡ w
  unfolding handle
  handle-state i Kind.ignored w t = refl
  handle-state i k w t = ground arith

  event_step-state : (i : ℕ) (w : Wrapper) (t : Trace) → (event_step env i w t).1 ≡ w
  unfolding event_step handle
  event_step-state i w t = ground arith

  collect-state :
      (n i : ℕ) (found : List Event) (w : Wrapper) (t : Trace) → (collect env n i found w t).1 ≡ w
  unfolding collect
  collect-state zero i found w t = refl
  collect-state (suc n) i found w t = elim (Option-cases (event_step env i w t).0) [
    | inl e ↦ ground (arith, event_step-state i w t)
    | inr (more, e) ↦ ground (
      arith,
      event_step-state i w t,
      collect-state n (i + 1) (found ++ more) (event_step env i w t).1 (event_step env i w t).2,
    )
  ]

  pub event-state : (qsort : Sorter) (w : Wrapper) (t : Trace) → (event env qsort w t).1 ≡ w
  unfolding event deliver
  event-state qsort w t = ground (arith, collect-state (pos_part count) 0 [] w start)
    where
      count : ℤ
      count = env.value t (marpa (g_event_count w.grammar))

      start : Trace
      start = malloc (mul_size (pos_part count) sizeof_event) ∷ marpa (g_event_count w.grammar) ∷ t
