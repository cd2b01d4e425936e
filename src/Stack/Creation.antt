-- ===== src/Stack/Creation.antt =====
-- `genericStack_newp`: when the stack that it makes satisfies the invariant.
use marpa_wrapper.Prelude.{ℕ, ◌*◌, ◌≤◌, ◌≡◌, ◌≢◌, ◌↔◌, Option, some, arith}
use marpa_wrapper.Prelude.Int.{sizeof_pointer, ptrdiff_max}
use marpa_wrapper.World.{Ptr, Trace, Env, IsBounded}
use marpa_wrapper.Stack.{Stack, StackOption, new, stack_init_size}
use marpa_wrapper.Stack.Valid.{IsValid}

module _ (env : Env) (bounded : IsBounded env) {S : Type 0} where
  -- A stack that `genericStack_newp` returns, for an element size whose product with 4 does not wrap,
  -- is empty, and its block has room for its four pointers exactly if an element is at least as
  -- large as a pointer: the block is allocated for four elements, and holds pointers.
  pub new-IsValid_iff :
      (n : ℕ) (o : Option StackOption) (w : S) (t : Trace) (header : Ptr) (s : Stack)
      → n * stack_init_size ≤ ptrdiff_max
      → (new env n o w t).0 ≡ some (header, s)
      → (s.stack_size ≡ 0) × (n ≢ 0) × (IsValid s ↔ (sizeof_pointer ≤ n))
  unfolding new
  new-IsValid_iff n o w t header s fits made = ground arith
