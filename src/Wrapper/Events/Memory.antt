-- ===== src/Wrapper/Events/Memory.antt =====
-- The array of events that `_marpaWrapper_event` allocates is freed on every path.
use marpa_wrapper.Prelude.{
  ℕ, zero, suc, ◌+◌, ◌≡◌, ◌≢◌, refl, inl, inr, List, [], ◌∷◌, ◌++◌, arith, Option-cases, ◌==◌,
  if◌then◌else◌,
}
use marpa_wrapper.Prelude.Int.{ℤ, pos, mul_size}
use marpa_wrapper.World.{Ptr, null, Trace, Env, marpa, malloc, g_event_count, g_event}
use marpa_wrapper.World.Frees.{frees}
use marpa_wrapper.Wrapper.{Wrapper}
use marpa_wrapper.Wrapper.Events.{
  Event, Sorter, kind_of, Kind, handle, event_step, collect, deliver, event, sizeof_event,
}

module _ (env : Env) (p : Ptr) where
  frees-handle :
      (i : ℕ) (k : Kind) (w : Wrapper) (t : Trace) → frees p (handle env i k w t).2 ≡ frees p t
  unfolding handle
  frees-handle i Kind.ignored w t = refl
  frees-handle i k w t = ground arith

  frees-event_step :
      (i : ℕ) (w : Wrapper) (t : Trace) → frees p (event_step env i w t).2 ≡ frees p t
  unfolding event_step
  frees-event_step i w t =
      ground (arith, frees-handle i (kind_of type) w (marpa (g_event w.grammar i) ∷ t))
    where
      type : ℤ
      type = env.value t (marpa (g_event w.grammar i))

  frees-collect :
      (n i : ℕ) (found : List Event) (w : Wrapper) (t : Trace)
      → frees p (collect env n i found w t).2 ≡ frees p t
  unfolding collect
  frees-collect zero i found w t = refl
  frees-collect (suc n) i found w t = elim (Option-cases (event_step env i w t).0) [
    | inl e ↦ ground (arith, frees-event_step i w t)
    | inr (more, e) ↦ ground (
      arith,
      frees-event_step i w t,
      frees-collect n (i + 1) (found ++ more) (event_step env i w t).1 (event_step env i w t).2,
    )
  ]

-- Where libmarpa counts `n` events and the array of events was allocated, `_marpaWrapper_event` frees
-- it exactly once, and no other pointer, whatever the events are.
pub frees-event :
    (env : Env) (qsort : Sorter) (p : Ptr) (n : ℕ) (w : Wrapper) (t : Trace)
    → env.value t (marpa (g_event_count w.grammar)) ≡ pos n
    → env.address (marpa (g_event_count w.grammar) ∷ t) (malloc (mul_size n sizeof_event)) ≢ null
    → let block =
        env.address (marpa (g_event_count w.grammar) ∷ t) (malloc (mul_size n sizeof_event)) in
      frees p (event env qsort w t).2 ≡ (if block == p then 1 else 0) + frees p t
unfolding event deliver
frees-event env qsort p n w t count memory =
    ground (arith, count, frees-collect env p n 0 [] w start)
  where
    start : Trace
    start = malloc (mul_size n sizeof_event) ∷ marpa (g_event_count w.grammar) ∷ t
