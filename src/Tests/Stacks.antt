-- ===== src/Tests/Stacks.antt =====
-- The theorems on stacks at a stack of two elements.
use marpa_wrapper.Prelude.{
  ℕ, ◌+◌, ◌≤◌, ◌≡◌, ◌≢◌, ◌↔◌, refl, ◌++◌, inr, Option, [], ◌∷◌, true, none, some, arith,
}
use marpa_wrapper.Prelude.Int.{sizeof_pointer}
use marpa_wrapper.World.{null, Trace}
use marpa_wrapper.World.Frees.{frees}
use marpa_wrapper.Stack.{
  Stack, fresh, new, copy, push, shrink, pop, release, grow_to, set_element, set_grown, set_at,
  destroy,
}
use marpa_wrapper.Stack.Valid.{IsValid}
use marpa_wrapper.Stack.Contents.{contents, Pushes, push-Pushes, pop_lem}
use marpa_wrapper.Stack.Growth.{grow_to-exhausted}
use marpa_wrapper.Stack.Access.{Sets, set_at-Sets}
use marpa_wrapper.Stack.Destroy.{destroy-pop}
use marpa_wrapper.Stack.Creation.{new-IsValid_iff}
use marpa_wrapper.Tests.{world, full_world, world-IsBounded, full_world-IsExhausted}

abbrev pub two_items : Stack
two_items = record {
  block = 50;
  bytes = 32;
  slots = 61 ∷ 62 ∷ null ∷ null ∷ [];
  alloc_size = 4;
  stack_size = 2;
  element_size = 8;
  failure = none;
  free_element = none;
  copy_element = none;
  grow_on_set = true;
  grow_on_get = true;
}

pub two_items-IsValid : IsValid two_items
two_items-IsValid = record {
  held = refl;
  within = omega arith;
  room = omega arith;
  small = omega arith;
  least = omega arith;
  few = omega arith;
}

-- a full stack, which has to grow
abbrev four_items : Stack
four_items = record two_items { slots = 61 ∷ 62 ∷ 63 ∷ 64 ∷ []; stack_size = 4 }

four_items-IsValid : IsValid four_items
four_items-IsValid = record {
  held = refl;
  within = omega arith;
  room = omega arith;
  small = omega arith;
  least = omega arith;
  few = omega arith;
}

push-Pushes_example : Pushes world 8 70 (contents four_items) 4 (push world 70 four_items [])
push-Pushes_example =
    push-Pushes world world-IsBounded 70 four_items [] four_items-IsValid (omega arith)

pop_lem_example :
    let (value, s', _) = pop world two_items [] in
    (contents s' ++ value ∷ [] ≡ contents two_items) × (s'.stack_size + 1 ≡ 2)
pop_lem_example = pop_lem world world-IsBounded two_items [] two_items-IsValid (omega arith)

set_at_returns : (set_at world 1 70 two_items []).0 ≡ some 1
unfolding set_at set_grown set_element release copy
set_at_returns = refl

set_at-Sets_example :
    let (_, s', t') = set_at world 1 70 two_items [] in Sets world 1 70 two_items s' t'
set_at-Sets_example =
    set_at-Sets world world-IsBounded 1 70 two_items [] two_items-IsValid (omega arith)
      set_at_returns

grow_to-exhausted_example : (grow_to full_world 100 6 two_items []).0 ≡ none
grow_to-exhausted_example =
    grow_to-exhausted full_world full_world-IsExhausted 100 6 two_items [] (omega arith)

popped_value : (pop world two_items []).0 ≡ 62
unfolding pop shrink
popped_value = refl

destroy-pop_example :
    let (value, s', t') = pop world two_items [] in
    frees value t' + 1 ≤ frees value (destroy world 40 s' t').2
destroy-pop_example =
    destroy-pop world 40 two_items [] two_items-IsValid (omega arith) (inr (omega arith))
      (rw popped_value (omega arith))

made_stack : (new world 8 none tt []).0 ≡ some (100, fresh 101 8 none)
unfolding new
made_stack = refl

new-IsValid_iff_example :
    ((fresh 101 8 none).stack_size ≡ 0)
    × ((fresh 101 8 none).element_size ≢ 0)
    × (IsValid (fresh 101 8 none) ↔ (sizeof_pointer ≤ 8))
new-IsValid_iff_example =
    new-IsValid_iff world world-IsBounded 8 none tt [] 100 (fresh 101 8 none) (omega arith)
      made_stack

-- the empty stack of `made_stack`, and after a push and a pop
abbrev pushed : Option ℕ × Stack × Trace
pushed = (none, (push world 70 (fresh 101 8 none) []).1, (push world 70 (fresh 101 8 none) []).2)
