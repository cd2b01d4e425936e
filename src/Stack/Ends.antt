-- ===== src/Stack/Ends.antt =====
-- With memory, reading and writing a stack return.
use marpa_wrapper.Prelude.{ℕ, ◌+◌, ◌<◌, ◌≢◌, none, arith}
use marpa_wrapper.World.{Ptr, Trace, Env, IsBounded, IsGenerous}
use marpa_wrapper.Stack.{Stack, get_grown, get, set_grown, set_at}
use marpa_wrapper.Stack.Valid.{IsValid, most_items}
use marpa_wrapper.Stack.Growth.{grow_to-ends}

module _ (env : Env) (bounded : IsBounded env) (generous : IsGenerous env) where
  -- `genericStack_getp` and `genericStack_seti` on a valid stack return, at an index below 2^31, where
  -- memory does not run out.
  pub access_returns :
      (index : ℕ) (p : Ptr) (s : Stack) (t : Trace)
      → IsValid s
      → index < most_items
      → ((get env index s t).0 ≢ none) × ((set_at env index p s t).0 ≢ none)
  unfolding get get_grown set_at set_grown
  access_returns index p s t v small = (
    ground (arith, grow_to-ends env bounded generous (index + 1) index s t v),
    ground (arith, grow_to-ends env bounded generous (index + 1) index s t v),
  )
