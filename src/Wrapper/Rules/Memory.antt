-- ===== src/Wrapper/Rules/Memory.antt =====
-- The memory of adding a rule, on every path of `marpaWrapper_g_addRulep` of src/marpaWrapper.c.
use marpa_wrapper.Prelude.{
  ℕ, ◌+◌, ◌<◌, ◌≡◌, ◌≢◌, ◌⊎◌, refl, inl, inr, true, false, some, ◌∷◌, arith, ◌==◌, if◌then◌else◌,
  Bool-cases, length, ltb,
}
use marpa_wrapper.Prelude.Int.{ℤ, pos, is_minus_two, mul_size}
use marpa_wrapper.World.{Ptr, null, malloc, free, marpa, MarpaCall, Call, Trace, Env, M, pure, ◌>>◌}
use marpa_wrapper.World.Blocks.{gives_block, given_blocks, taken_blocks}
use marpa_wrapper.Buf.{Buf}
use marpa_wrapper.Buf.Valid
use marpa_wrapper.Buf.Valid.{most_pointers}
use marpa_wrapper.Buf.Balance.{Holds, is_block}
use marpa_wrapper.Wrapper.{Wrapper, RuleOption, create_pointers, log_g_error}
use marpa_wrapper.Wrapper.Recognizer.{sizeof_id}
use marpa_wrapper.Wrapper.Tables.{to_size-next}
use marpa_wrapper.Wrapper.Tables.Memory.{held, held-set, IsFresh, Roomy, room-Holds}
use marpa_wrapper.Wrapper.Rules.{
  sizeof_rule, apply_rule_option, store_rule, fill_rule, new_rule, attach_rule, create_rule,
  add_rule,
}
use marpa_wrapper.Wrapper.Rules.Table.{fill_rule_lem}

not_minus_two : (n : ℕ) → is_minus_two (pos n) ≡ false
not_minus_two n = ground arith

module _ (env : Env) where
  -- the options of a rule allocate nothing and free nothing
  apply_rule_option-blocks :
      (q p : Ptr) (id : ℤ) (o : RuleOption) (w : Wrapper) (t : Trace)
      → let (_, _, t') = apply_rule_option env p id o w t in
        (given_blocks env q t' ≡ given_blocks env q t)
        × (taken_blocks env q t' ≡ taken_blocks env q t)
  unfolding apply_rule_option
  apply_rule_option-blocks q p id o w t = (ground arith, ground arith)

  fill_rule-blocks :
      (q p : Ptr) (id : ℤ) (option : RuleOption) (w : Wrapper) (t : Trace)
      → let (_, _, t') = fill_rule env p id option w t in
        (given_blocks env q t' ≡ given_blocks env q t)
        × (taken_blocks env q t' ≡ taken_blocks env q t)
  unfolding fill_rule store_rule
  fill_rule-blocks q p id option w t = apply_rule_option-blocks q p id _ _ t

  store_rule-held :
      (q p : Ptr) (n : ℕ) (option : RuleOption) (w : Wrapper) (t : Trace)
      → n + 1 < most_pointers
      → n < length w.rules.slots
      → w.rules.used ≡ n
      → held q (store_rule env p (pos n) option w t).1.rules ≡ is_block q p + held q w.rules
  unfolding store_rule
  store_rule-held q p n option w t few inside used =
      rw (to_size-next n few) (held-set q p n w.rules inside used)

  attach_rule-Holds :
      (q : Ptr) (option : RuleOption) (w : Wrapper) (t : Trace)
      → q ≢ null
      → Valid.IsValid w.rules
      → IsFresh w.rules
      → w.rules.used + 1 < most_pointers
      → let (_, w', t') = attach_rule env (pos w.rules.used) option w t in
        Holds env q (held q w.rules) (held q w'.rules) t t'
  unfolding attach_rule
  attach_rule-Holds q option w t ne v fresh few =
      rw (to_size-next n few) (elim (Bool-cases (block == null)) [
        | inl refused ↦ rw refused (omega (arith, ledger))
        | inr made ↦ elim (Bool-cases (p == null)) [
          | inl none_left ↦ rw (made, none_left) (omega (arith, ledger, no_rule none_left))
          | inr allocated ↦ rw (made, allocated) (placed roomy (ground arith))
        ]
      ])
    where
      n : ℕ
      n = w.rules.used

      block : Ptr
      block = (create_pointers env (n + 1) w.rules t).0

      room : Buf
      room = (create_pointers env (n + 1) w.rules t).1

      after : Trace
      after = (create_pointers env (n + 1) w.rules t).2

      p : Ptr
      p = env.address after (malloc sizeof_rule)

      roomy : Roomy n block w.rules room
      roomy = (room-Holds env q w.rules t ne v fresh few).0

      ledger : Holds env q (held q w.rules) (held q room) t after
      ledger = (room-Holds env q w.rules t ne v fresh few).1

      no_rule : (p == null) ≡ true → is_block q p ≡ 0
      no_rule none_left = ground arith

      gave : gives_block env q after (malloc sizeof_rule) ≡ is_block q p
      gave = refl

      placed :
          Roomy n block w.rules room
          → block ≢ null
          → let (_, w', t') =
              fill_rule env p
                (pos n)
                option
                (record w { rules = room })
                (malloc sizeof_rule ∷ after) in
            Holds env q (held q w.rules) (held q w'.rules) t t'
      placed (inl (e, same)) made = absurd (made e)
      placed (inr (made', inside, used, kept)) made =
          let w1 : Wrapper = record w { rules = room } in
          let t1 = malloc sizeof_rule ∷ after in
          let (given, taken) = fill_rule-blocks q p (pos n) option w1 t1 in
          let (state, _) = fill_rule_lem env p (pos n) option w1 t1 in
          rw state (
            omega (
              arith,
              given,
              taken,
              ledger,
              gave,
              store_rule-held q p n option w1 t1 few inside used,
            ))

  -- what follows the call of libmarpa
  named : ℤ → RuleOption → M Wrapper Ptr
  named id o w t =
      (if is_minus_two id then log_g_error env w.grammar >> pure null else attach_rule env id o) w t

  named-Holds :
      (q : Ptr) (id : ℤ) (o : RuleOption) (w : Wrapper) (t : Trace)
      → q ≢ null
      → Valid.IsValid w.rules
      → IsFresh w.rules
      → w.rules.used + 1 < most_pointers
      → (is_minus_two id ≡ true) ⊎ (id ≡ pos w.rules.used)
      → let (_, w', t') = named id o w t in Holds env q (held q w.rules) (held q w'.rules) t t'
  unfolding named
  named-Holds q id o w t ne v fresh few (inl failed) = rw failed (omega arith)
  named-Holds q id o w t ne v fresh few (inr numbered) =
      rw (numbered, not_minus_two w.rules.used)
        (omega (arith, attach_rule-Holds q o w t ne v fresh few))

  new_rule_call :
      (o : RuleOption) (w : Wrapper) (t : Trace)
      → (c : MarpaCall) × (new_rule env o w t ≡ (env.value t (marpa c), w, marpa c ∷ t))
  unfolding new_rule
  new_rule_call o w t = (_, refl)

  create_rule-named :
      (o : RuleOption) (w : Wrapper) (t : Trace)
      → let n = length o.rhs in
        let c = malloc (mul_size n sizeof_id) in
        let block = env.address t c in
        ((0 < n)
          × (block ≡ null)
          × ((create_rule env o w t).1 ≡ w)
          × ((q : Ptr)
              → (given_blocks env q (create_rule env o w t).2
                  ≡ given_blocks env q t + is_block q null)
                × (taken_blocks env q (create_rule env o w t).2 ≡ taken_blocks env q t)))
        ⊎ ((r : MarpaCall) × (create_rule env o w t
              ≡ named (new_rule env o w (c ∷ t)).0 o w (free block ∷ marpa r ∷ c ∷ t)))
        ⊎ ((r : MarpaCall) × (create_rule env o w t
              ≡ named (new_rule env o w t).0 o w (marpa r ∷ t)))
  unfolding create_rule named
  create_rule-named o w t = elim (Bool-cases (ltb 0 (length o.rhs))) [
    | inr empty ↦ let (r, e) = new_rule_call o w t in inr (inr (r, ground (arith, e)))
    | inl some_rhs ↦
        elim (Bool-cases (env.address t (malloc (mul_size (length o.rhs) sizeof_id)) == null)) [
          | inl none_left ↦ inl (ground arith, ground arith, ground arith, λ q. ground arith)
          | inr got ↦
              let (r, e) = new_rule_call o w (malloc (mul_size (length o.rhs) sizeof_id) ∷ t) in
              inr (inl (r, ground (arith, e)))
        ]
  ]

  create_rule-Holds :
      (q : Ptr) (o : RuleOption) (w : Wrapper) (t : Trace)
      → q ≢ null
      → Valid.IsValid w.rules
      → IsFresh w.rules
      → w.rules.used + 1 < most_pointers
      → ((t' : Trace)
          → let id = (new_rule env o w t').0 in (is_minus_two id ≡ true) ⊎ (id ≡ pos w.rules.used))
      → let (_, w', t') = create_rule env o w t in
        Holds env q (held q w.rules) (held q w'.rules) t t'
  create_rule-Holds q o w t ne v fresh few numbered = elim (create_rule-named o w t) [
    | inl (some_rhs, none_left, same, blocks) ↦
        let (given, taken) = blocks q in rw same (omega (arith, given, taken, no_block))
    | inr (inl (r, e)) ↦ rw e (
        omega (
          arith,
          named-Holds q (new_rule env o w (c ∷ t)).0 o w (free block ∷ marpa r ∷ c ∷ t) ne v fresh
              few (numbered (c ∷ t)),
        ))
    | inr (inr (r, e)) ↦ rw e (
        omega (
          arith,
          named-Holds q (new_rule env o w t).0 o w (marpa r ∷ t) ne v fresh few (numbered t),
        ))
  ]
    where
      c : Call
      c = malloc (mul_size (length o.rhs) sizeof_id)

      block : Ptr
      block = env.address t c

      no_block : is_block q null ≡ 0
      no_block = ground arith

  -- `marpaWrapper_g_addRulep`, on every path, those of the checks among them, where libmarpa numbers
  -- rules by how many the table has: what it was given and did not give back is what the table holds
  -- more than before; the array of the identifiers of the right-hand side is always given back. For a
  -- valid table that has no block while it is empty.
  pub add_rule-Holds :
      (q : Ptr) (o : RuleOption) (w : Wrapper) (t : Trace)
      → q ≢ null
      → Valid.IsValid w.rules
      → IsFresh w.rules
      → w.rules.used + 1 < most_pointers
      → ((t' : Trace)
          → let id = (new_rule env o w t').0 in (is_minus_two id ≡ true) ⊎ (id ≡ pos w.rules.used))
      → let (_, w', t') = add_rule env (some o) w t in
        Holds env q (held q w.rules) (held q w'.rules) t t'
  unfolding add_rule
  add_rule-Holds q o w t ne v fresh few numbered =
      ground (arith, create_rule-Holds q o w t ne v fresh few numbered)
