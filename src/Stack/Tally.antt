-- ===== src/Stack/Tally.antt =====
-- The operations on a stack do not call libmarpa.
use marpa_wrapper.Prelude.{
  ℕ, zero, suc, ◌+◌, ◌≡◌, refl, ◌∙◌, Option, none, some, List, [], ◌∷◌, arith, get_or, set, take,
}
use marpa_wrapper.World.{Ptr, null, Trace, Env}
use marpa_wrapper.World.Tally.{tally, Weight}
use marpa_wrapper.Stack.{
  Stack, StackOption, new, grow, copy, push_element, push, grow_to, get_grown, get, release,
  set_element, set_grown, set_at, release_all, destroy,
}

module _ (env : Env) (f : Weight) where
  pub tally-new :
      {S : Type 0} (n : ℕ) (o : Option StackOption) (s : S) (t : Trace)
      → tally f (new env n o s t).2 ≡ tally f t
  unfolding new
  tally-new n none s t = ground arith
  tally-new n (some o) s t = ground arith

  tally-grow : (s : Stack) (t : Trace) → tally f (grow env s t).2 ≡ tally f t
  unfolding grow
  tally-grow s t = ground arith

  tally-copy : (p : Ptr) (s : Stack) (t : Trace) → tally f (copy env p s t).2 ≡ tally f t
  unfolding copy
  tally-copy p s t = ground arith

  tally-push_element :
      (p : Ptr) (s : Stack) (t : Trace) → tally f (push_element env p s t).2 ≡ tally f t
  unfolding push_element
  tally-push_element p s t = ground (arith, tally-copy p s t)

  tally-push : (p : Ptr) (s : Stack) (t : Trace) → tally f (push env p s t).2 ≡ tally f t
  unfolding push
  tally-push p s t = ground (
    arith,
    tally-grow s t,
    tally-push_element p s t,
    tally-push_element p (grow env s t).1 (grow env s t).2,
  )

  tally-grow_to :
      (rounds index : ℕ) (s : Stack) (t : Trace)
      → tally f (grow_to env rounds index s t).2 ≡ tally f t
  unfolding grow_to
  tally-grow_to zero index s t = refl
  tally-grow_to (suc rounds) index s t = ground (
    arith,
    tally-push null s t,
    tally-grow_to rounds index (push env null s t).1 (push env null s t).2,
  )

  pub tally-get : (index : ℕ) (s : Stack) (t : Trace) → tally f (get env index s t).2 ≡ tally f t
  unfolding get get_grown
  tally-get index s t = ground (arith, tally-grow_to (index + 1) index s t)

  tally-release : (p : Ptr) (s : Stack) (t : Trace) → tally f (release env p s t).2 ≡ tally f t
  unfolding release
  tally-release p s t = ground arith

  tally-set_element :
      (index : ℕ) (p : Ptr) (s : Stack) (t : Trace)
      → tally f (set_element env index p s t).2 ≡ tally f t
  unfolding set_element
  tally-set_element index p s t = ground (
    arith,
    tally-release old s t,
    tally-copy p (record released { slots = set released.slots index null })
        (release env old s t).2,
  )
    where
      old : Ptr
      old = get_or s.slots index null

      released : Stack
      released = (release env old s t).1

  tally-set_grown :
      (index : ℕ) (p : Ptr) (done : Option (Unit {0})) (s : Stack) (t : Trace)
      → tally f (set_grown env index p done s t).2 ≡ tally f t
  unfolding set_grown
  tally-set_grown index p none s t = refl
  tally-set_grown index p (some u) s t = ground (arith, tally-set_element index p s t)

  pub tally-set_at :
      (index : ℕ) (p : Ptr) (s : Stack) (t : Trace) → tally f (set_at env index p s t).2 ≡ tally f t
  unfolding set_at
  tally-set_at index p s t = ground (
    arith,
    tally-grow_to (index + 1) index s t,
    tally-set_grown index p (some tt) s t,
    tally-set_grown index p grown.0 grown.1 grown.2,
  )
    where
      grown : Option (Unit {0}) × Stack × Trace
      grown = grow_to env (index + 1) index s t

  tally-release_all :
      (ps : List Ptr) (s : Stack) (t : Trace) → tally f (release_all env ps s t).2 ≡ tally f t
  unfolding release_all
  tally-release_all [] s t = refl
  tally-release_all (p ∷ ps) s t =
      tally-release_all ps (release env p s t).1 (release env p s t).2 ∙ tally-release p s t

  pub tally-destroy :
      (header : Ptr) (s : Stack) (t : Trace) → tally f (destroy env header s t).2 ≡ tally f t
  unfolding destroy
  tally-destroy header s t = ground (arith, tally-release_all (take s.alloc_size s.slots) s t)
