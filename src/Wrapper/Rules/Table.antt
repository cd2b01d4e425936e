-- ===== src/Wrapper/Rules/Table.antt =====
-- The table of rules, and which rules reach libmarpa.
use Prim.Native.String.{String}
use marpa_wrapper.Prelude.{
  ℕ, ◌+◌, ◌<◌, ◌≡◌, ◌≢◌, ◌⊎◌, inl, inr, true, some, ◌∷◌, arith, ◌==◌, ◌||◌, Bool-cases, length,
}
use marpa_wrapper.Prelude.Int.{ℤ, pos, eqb_ℤ}
use marpa_wrapper.World.{Ptr, null, malloc, log, error, na, Trace, Env}
use marpa_wrapper.Buf.{Buf}
use marpa_wrapper.Buf.Valid
use marpa_wrapper.Buf.Valid.{most_pointers}
use marpa_wrapper.Wrapper.{Wrapper, RuleOption, create_pointers}
use marpa_wrapper.Wrapper.Tables.{to_size-next, Puts, Puts-create}
use marpa_wrapper.Wrapper.Rules.{
  sizeof_rule, apply_rule_option, store_rule, fill_rule, attach_rule, create_rule, add_rule,
}

module _ (env : Env) where
  apply_rule_option_lem :
      (p : Ptr) (id : ℤ) (o : RuleOption) (w : Wrapper) (t : Trace)
      → let (result, w', _) = apply_rule_option env p id o w t in
        (w' ≡ w) × ((result ≡ null) ⊎ (result ≡ p))
  unfolding apply_rule_option
  apply_rule_option_lem p id o w t = ground arith

  pub fill_rule_lem :
      (p : Ptr) (id : ℤ) (o : RuleOption) (w : Wrapper) (t : Trace)
      → let (result, w', _) = fill_rule env p id o w t in
        (w' ≡ (store_rule env p id o w t).1) × ((result ≡ null) ⊎ (result ≡ p))
  unfolding fill_rule store_rule
  fill_rule_lem p id o w t = apply_rule_option_lem p id o _ t

  -- A rule that `_marpaWrapper_g_addRulep` returns, for an identifier below 2^59 - 1 and a valid
  -- table, stands in the table at its identifier, carries it and the option of the application, the
  -- table is valid and counts up to it, and every other slot that the table had is as it was.
  pub attach_rule-Puts :
      (n : ℕ) (o : RuleOption) (w : Wrapper) (t : Trace)
      → n + 1 < most_pointers
      → Valid.IsValid w.rules
      → (attach_rule env (pos n) o w t).0 ≢ null
      → let (p, w', _) = attach_rule env (pos n) o w t in
        Puts n p w.rules w'.rules × ((w'.rule_at p).id ≡ pos n) × ((w'.rule_at p).option ≡ o)
  unfolding attach_rule store_rule
  attach_rule-Puts n o w t few v = rw (to_size-next n few) (elim (Bool-cases (block == null)) [
    | inl refused ↦ λ ne. absurd (ne (ground arith))
    | inr made ↦ elim (Bool-cases (p == null)) [
      | inl none_left ↦ λ ne. absurd (ne (ground arith))
      | inr allocated ↦
          rw (made, allocated)
            (placed _ _
              (fill_rule_lem p (pos n) o (record w { rules = room }) (malloc sizeof_rule ∷ after))
              (ground arith))
    ]
  ])
    where
      block : Ptr
      block = (create_pointers env (n + 1) w.rules t).0

      room : Buf
      room = (create_pointers env (n + 1) w.rules t).1

      after : Trace
      after = (create_pointers env (n + 1) w.rules t).2

      p : Ptr
      p = env.address after (malloc sizeof_rule)

      stored : Wrapper
      stored = (store_rule env p (pos n) o (record w { rules = room }) after).1

      placed :
          (result : Ptr) (w' : Wrapper)
          → (w' ≡ stored) × ((result ≡ null) ⊎ (result ≡ p))
          → block ≢ null
          → result ≢ null
          → Puts n result w.rules w'.rules
            × ((w'.rule_at result).id ≡ pos n)
            × ((w'.rule_at result).option ≡ o)
      placed result w' (same, inl refused) made ne = absurd (ne refused)
      placed result w' (same, inr found) made ne =
          rw (same, found, to_size-next n few)
            (Puts-create env n p w.rules t few v made, ground arith, ground arith)

-- What a rule must satisfy: a left-hand side, and a sequence has one symbol on the right and a
-- minimum of 0 or 1.
pub record IsWellFormed (o : RuleOption) : Type 0 where
  pub has_lhs : o.lhs ≢ null
  pub one_rhs : o.sequence ≡ true → length o.rhs ≡ 1
  pub minimum : o.sequence ≡ true → (o.minimum ≡ pos 0) ⊎ (o.minimum ≡ pos 1)

-- `marpaWrapper_g_addRulep` hands a rule on exactly if it is well formed: any other is refused with
-- one message, no call and no change.
pub add_rule_checks :
    (env : Env) (o : RuleOption) (w : Wrapper) (t : Trace)
    → (IsWellFormed o × (add_rule env (some o) w t ≡ create_rule env o w t))
      ⊎ ((¬ IsWellFormed o)
          × ((text : String) × (add_rule env (some o) w t
                ≡ (null, w, log error na (pos 0) text ∷ t))))
unfolding add_rule
add_rule_checks env o w t = elim (Bool-cases (o.lhs == null)) [
  | inl no_lhs ↦ inr (
    (λ f. f.has_lhs (ground arith)),
    ("marpaWrapperRuleOptionp->lhsSymbolp is NULL", ground arith),
  )
  | inr lhs ↦ elim (Bool-cases o.sequence) [
    | inr single ↦
        inl (record { has_lhs = ground arith; one_rhs = λ e. cc; minimum = λ e. cc }, ground arith)
    | inl sequence ↦ elim (Bool-cases (length o.rhs == 1)) [
      | inr other ↦ inr (
        (λ f. ground (arith, f.one_rhs sequence)),
        ("A sequence must have exactly one RHS", ground arith),
      )
      | inl one ↦ elim (Bool-cases (eqb_ℤ o.minimum (pos 0) || eqb_ℤ o.minimum (pos 1))) [
        | inl in_range ↦ inl (
          record {
            has_lhs = ground arith;
            one_rhs = λ e. ground arith;
            minimum = λ e. min_cases o.minimum in_range;
          },
          ground arith,
        )
        | inr out_of_range ↦ inr (
          (λ f. ground (arith, f.minimum sequence)),
          ("A sequence must have a minimum of exactly 0 or 1", ground arith),
        )
      ]
    ]
  ]
]
  where
    min_cases : (i : ℤ) → (eqb_ℤ i (pos 0) || eqb_ℤ i (pos 1)) ≡ true → (i ≡ pos 0) ⊎ (i ≡ pos 1)
    min_cases i h = ground arith
