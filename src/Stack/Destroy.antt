-- ===== src/Stack/Destroy.antt =====
-- `genericStack_destroyv`: which pointers it gives back to `free`, and how often. And what
-- `genericStack_popp` leaves in the block.
use marpa_wrapper.Prelude.{
  ◌+◌, ◌-◌, ◌*◌, ◌≤◌, ◌<◌, ◌≡◌, ◌≢◌, refl, ◌∙◌, ◌⊎◌, List, [], ◌∷◌, arith, ◌==◌, if◌then◌else◌,
  get_or, take,
}
use marpa_wrapper.World.{Ptr, null, Trace, Env}
use marpa_wrapper.World.Frees.{frees, count, count-get_or}
use marpa_wrapper.Stack.{Stack, release, release_all, destroy, shrink, pop}
use marpa_wrapper.Stack.Valid.{IsValid, release-state}

module _ (env : Env) where
  frees-release :
      (p q : Ptr) (s : Stack) (t : Trace)
      → p ≢ null
      → frees p (release env q s t).2 ≡ (if q == p then 1 else 0) + frees p t
  unfolding release
  frees-release p q s t ne = ground arith

  frees-release_all :
      (p : Ptr) (qs : List Ptr) (s : Stack) (t : Trace)
      → p ≢ null
      → frees p (release_all env qs s t).2 ≡ count p qs + frees p t
  unfolding release_all
  frees-release_all p [] s t ne = omega arith
  frees-release_all p (q ∷ qs) s t ne = omega (
    arith,
    frees-release p q s t ne,
    frees-release_all p qs (release env q s t).1 (release env q s t).2 ne,
  )

  release_all-state : (qs : List Ptr) (s : Stack) (t : Trace) → (release_all env qs s t).1 ≡ s
  unfolding release_all
  release_all-state [] s t = refl
  release_all-state (q ∷ qs) s t =
      release_all-state qs (release env q s t).1 (release env q s t).2 ∙ release-state env q s t

  -- `genericStack_destroyv` frees a pointer as often as it stands in the allocated slots, those above
  -- the size of the stack too, and beside them the block and the structure, once each.
  pub frees-destroy :
      (p header : Ptr) (s : Stack) (t : Trace)
      → p ≢ null
      → frees p (destroy env header s t).2
        ≡ (if header == p then 1 else 0)
          + (if s.block == p then 1 else 0)
          + count p (take s.alloc_size s.slots)
          + frees p t
  unfolding destroy
  frees-destroy p header s t ne = ground (
    arith,
    frees-release_all p (take s.alloc_size s.slots) s t ne,
    release_all-state (take s.alloc_size s.slots) s t,
  )

module _ (env : Env) where
  shrink_off :
      (s : Stack) (t : Trace)
      → (s.alloc_size < s.stack_size * 2) ⊎ (s.alloc_size < 8)
      → shrink env s t ≡ (tt, s, t)
  unfolding shrink
  shrink_off s t h = ground arith

  -- `genericStack_popp` leaves the pointer that it returns in its slot unless the block shrinks: on a
  -- valid stack of a block that stays, a pointer that was popped, and so is the caller's, is freed by
  -- `genericStack_destroyv` once more.
  pub destroy-pop :
      (header : Ptr) (s : Stack) (t : Trace)
      → IsValid s
      → 0 < s.stack_size
      → (s.alloc_size < (s.stack_size - 1) * 2) ⊎ (s.alloc_size < 8)
      → (pop env s t).0 ≢ null
      → let (value, s', t') = pop env s t in
        frees value t' + 1 ≤ frees value (destroy env header s' t').2
  unfolding pop
  destroy-pop header s t v some_left stays ne = ground (
    arith,
    shrink_off popped t,
    frees-destroy env (get_or s.slots (s.stack_size - 1) null) header popped t,
    count-get_or s.slots s.alloc_size (s.stack_size - 1) (get_or s.slots (s.stack_size - 1) null),
  )
    where
      popped : Stack
      popped = record s { stack_size = s.stack_size - 1 }
