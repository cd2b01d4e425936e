-- ===== src/Stack/Access.antt =====
-- `genericStack_seti` and `genericStack_getp`: what is written is what is read.
use marpa_wrapper.Prelude.{
  ℕ, ◌+◌, ◌<◌, ◌≡◌, ◌≢◌, refl, ◌∙◌, inl, inr, true, Option, none, some, arith, leb, ◌==◌, ◌&&◌,
  Bool-cases, length, get_or, set, length-set, get_or-set_ne, get_or-set_self,
}
use marpa_wrapper.Prelude.Int.{uint_mod}
use marpa_wrapper.World.{Ptr, null, Trace, Env, IsBounded}
use marpa_wrapper.Stack.{
  Stack, copy, release, grow_to, get, get_grown, set_element, set_grown, set_at,
}
use marpa_wrapper.Stack.Valid.{IsValid, copy-state, release-state, grow_to-IsValid, grow_to-lt}
use marpa_wrapper.Stack.Contents.{Stands, copy-IsCopied}
use marpa_wrapper.Stack.Growth.{Extends, grow_to-Extends}

-- `s'` is `s` with `element`, as what stands for it, at `index`; `t'` is the trace by then.
pub record Sets (env : Env) (index : ℕ) (element : Ptr) (s s' : Stack) (t' : Trace) : Type 0 where
  pub stands : Stands env s'.element_size element (get_or s'.slots index null) t'
  pub inside : index < s'.stack_size
  pub kept : (i : ℕ) → i < s.stack_size → i ≢ index → get_or s'.slots i null ≡ get_or s.slots i null

Sets-after :
    {env : Env} {index : ℕ} {p : Ptr} {s s' s'' : Stack} {t : Trace}
    → Extends s s'
    → Sets env index p s' s'' t
    → Sets env index p s s'' t
Sets-after e w = record {
  stands = w.stands;
  inside = w.inside;
  kept = λ i below ne. w.kept i (omega (arith, e.larger)) ne ∙ e.kept i below;
}

module _ (env : Env) where
  set_element-Sets :
      (index : ℕ) (p : Ptr) (s : Stack) (t : Trace)
      → IsValid s
      → index < s.alloc_size
      → index + 1 < uint_mod
      → (set_element env index p s t).0 ≡ 1
      → let (_, s', t') = set_element env index p s t in Sets env index p s s' t'
  unfolding set_element
  set_element-Sets index p s t v lt small ok = record {
    stands = elim (Bool-cases (p == null)) [
      | inl e ↦ inl (
        ground arith,
        ground (arith, r, cleared_length, get_or-set_self cleared.slots index null null),
      )
      | inr e ↦ elim (Bool-cases ((copy env p cleared after).0 == null)) [
        | inl failed ↦ absurd (ground (arith, r))
        | inr made ↦
            rw
              (
                r,
                e,
                made,
                c,
                get_or-set_self cleared.slots index (copy env p cleared after).0 null
                    (omega (arith, cleared_length, v.held)),
              )
              (inr (ground arith, ground arith, copy-IsCopied env p cleared after (ground arith)))
      ]
    ];
    inside = ground (arith, r, c);
    kept = λ i below ne. ground (
      arith,
      r,
      c,
      get_or-set_ne s.slots index i null null,
      get_or-set_ne cleared.slots index i null null,
      get_or-set_ne cleared.slots index i (copy env p cleared after).0 null,
    );
  }
    where
      old : Ptr
      old = get_or s.slots index null

      after : Trace
      after = (release env old s t).2

      cleared : Stack
      cleared = record s { slots = set s.slots index null }

      r : (release env old s t).1 ≡ s
      r = release-state env old s t

      c : (copy env p cleared after).1 ≡ cleared
      c = copy-state env p cleared after

      cleared_length : length (set s.slots index null) ≡ length s.slots
      cleared_length = length-set s.slots index null

module _ (env : Env) where
  set_grown-Sets :
      (index : ℕ) (p : Ptr) (ended : Option (Unit {0})) (s : Stack) (t : Trace)
      → IsValid s
      → index + 1 < uint_mod
      → (set_grown env index p ended s t).0 ≡ some 1
      → (ended ≢ none → s.grow_on_set ≡ true → index < s.alloc_size)
      → let (_, s', t') = set_grown env index p ended s t in Sets env index p s s' t'
  unfolding set_grown
  set_grown-Sets index p none s t v small ok slot = cc
  set_grown-Sets index p (some u) s t v small ok slot =
      ground (arith, set_element-Sets env index p s t v, slot (λ e. cc))

module _ (env : Env) (bounded : IsBounded env) where
  -- On a valid stack and at an index that is at most 2^32 - 2, a `genericStack_seti` that returns 1
  -- leaves at the index what stands for the element: NULL for NULL, else a block of the size of an
  -- element that `malloc` gave and into which `memcpy` copied it. The index is below the size then,
  -- and every other slot that the stack held is as it was.
  pub set_at-Sets :
      (index : ℕ) (p : Ptr) (s : Stack) (t : Trace)
      → IsValid s
      → index + 1 < uint_mod
      → (set_at env index p s t).0 ≡ some 1
      → let (_, s', t') = set_at env index p s t in Sets env index p s s' t'
  unfolding set_at
  set_at-Sets index p s t v small ok = elim (Bool-cases (leb s.alloc_size index && s.grow_on_set)) [
    | inl far ↦ rw far (
        Sets-after (grow_to-Extends env bounded (index + 1) index s t v) (
          set_grown-Sets env index p (grow_to env (index + 1) index s t).0
            (grow_to env (index + 1) index s t).1 (grow_to env (index + 1) index s t).2
            (grow_to-IsValid env bounded (index + 1) index s t v) small (rw far at ok)
            (λ ended _. grow_to-lt env bounded (index + 1) index s t (some_tt _ ended))))
    | inr near ↦
        rw near
          (set_grown-Sets env index p (some tt) s t v small (rw near at ok) (λ _ on. ground arith))
  ]
    where
      some_tt : (o : Option (Unit {0})) → o ≢ none → o ≡ some tt
      some_tt none ne = absurd (ne refl)
      some_tt (some u) ne = refl

module _ (env : Env) where
  -- the status of a `genericStack_seti` that returns
  pub set_at-status :
      (index : ℕ) (p : Ptr) (s : Stack) (t : Trace)
      → (set_at env index p s t).0 ≢ none
      → (set_at env index p s t).0 ≢ some 0
      → (set_at env index p s t).0 ≡ some 1
  unfolding set_at set_grown set_element
  set_at-status index p s t returns ok = ground arith

module _ (env : Env) where
  -- An index below the size is read from its slot, and nothing changes.
  pub get_below :
      (index : ℕ) (s : Stack) (t : Trace)
      → IsValid s
      → index < s.stack_size
      → get env index s t ≡ (some (get_or s.slots index null), s, t)
  unfolding get get_grown
  get_below index s t v below = ground arith
