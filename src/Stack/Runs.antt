-- ===== src/Stack/Runs.antt =====
-- The life of a stack of src/genericStack.c: any sequence of its operations, on whatever answers of
-- memory and of the callbacks.
use marpa_wrapper.Prelude.{ℕ}
use marpa_wrapper.World.{Ptr, Trace, Env}
use marpa_wrapper.Stack.{Stack, push, pop, get, set_at}

-- One operation on a stack.
pub data Step (env : Env) : Stack × Trace → Stack × Trace → Type 0 where
  pushes :
      (p : Ptr) (s : Stack) (t : Trace) → Step env (s, t) ((push env p s t).1, (push env p s t).2)
  pops : (s : Stack) (t : Trace) → Step env (s, t) ((pop env s t).1, (pop env s t).2)
  gets :
      (index : ℕ) (s : Stack) (t : Trace)
      → Step env (s, t) ((get env index s t).1, (get env index s t).2)
  sets :
      (index : ℕ) (p : Ptr) (s : Stack) (t : Trace)
      → Step env (s, t) ((set_at env index p s t).1, (set_at env index p s t).2)

-- The stacks that an empty one becomes.
pub data Reach (env : Env) (start : Stack × Trace) : Stack × Trace → Type 0 where
  here : Reach env start start
  next : {u v : Stack × Trace} → Reach env start u → Step env u v → Reach env start v
