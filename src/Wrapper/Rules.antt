-- ===== src/Wrapper/Rules.antt =====
-- Adding rules: `marpaWrapper_g_addRulep` and `_marpaWrapper_g_addRulep` of src/marpaWrapper.c.
pub mod Table
pub mod Memory
use marpa_wrapper.Prelude.{
  ℕ, ◌+◌, ◌≤◌, ◌<◌, ◌≡◌, ◌≢◌, refl, ◌⊎◌, inl, inr, Bool, true, false, not, ◌&&◌, Option, none, some,
  List, [], ◌∷◌, map, arith, ltb, ◌==◌, if◌then◌else◌, Bool-cases, length, get_or, set,
}
use marpa_wrapper.Prelude.Int.{
  ℤ, pos, negsuc, pos_part, ◌+ℤ◌, eqb_ℤ, is_minus_two, mul_size, sizeof_pointer,
}
use marpa_wrapper.World.{
  Ptr, null, malloc, free, marpa, g_error, g_sequence_new, g_rule_new, g_rule_rank_set,
  g_rule_null_high_set, Trace, Env, M, pure, ◌>>=◌, ◌>>◌, get_state, put_state, emit, when, ask_int,
  ask_pointer,
}
use marpa_wrapper.World.Frees.{frees}
use marpa_wrapper.Buf.{Buf}
use marpa_wrapper.Buf.Valid
use marpa_wrapper.Buf.Valid.{most_pointers}
use marpa_wrapper.Wrapper.{
  Wrapper, Rule, RuleOption, to_size, update, log_error, log_g_error, log_sys_error, in_rules,
  create_pointers,
}
use marpa_wrapper.Wrapper.Recognizer.{sizeof_id}
use marpa_wrapper.Wrapper.Tables.{to_size-next, Puts, Puts-create}

-- sizeof(marpaWrapperRule_t)
abbrev pub sizeof_rule : ℕ
sizeof_rule = 96

-- MARPA_PROPER_SEPARATION
abbrev pub proper_separation : ℤ
proper_separation = pos 2

module _ (env : Env) where
  -- The options of a new rule; the result is the rule, or NULL.
  unfoldable pub apply_rule_option : Ptr → ℤ → RuleOption → M Wrapper Ptr
  apply_rule_option p id o = do
    w ← get_state
    ranked ← if eqb_ℤ o.rank (pos 0) then pure true else (do
      ask_int env (marpa (g_rule_rank_set w.grammar id o.rank)) >>= λ _. pure tt
      code ← ask_int env (marpa (g_error w.grammar))
      if eqb_ℤ code (pos 0) then pure true else log_g_error env w.grammar >> pure false)
    if not ranked
        then pure null
        else (if o.null_ranks_high
            then (do
              code ← ask_int env (marpa (g_rule_null_high_set w.grammar id (pos 1)))
              if is_minus_two code then log_g_error env w.grammar >> pure null else pure p)
            else pure p)

  -- The rule in its slot, with its fields.
  unfoldable pub store_rule : Ptr → ℤ → RuleOption → M Wrapper (Unit {0})
  store_rule p id o = do
    w ← get_state
    put_state (record w {
      rules = record (w.rules) {
        slots = set w.rules.slots (pos_part id) p;
        used = to_size (id +ℤ pos 1);
      };
      rule_at = update w.rule_at p (record { id = id; option = o });
    })

  -- What follows the allocation of the rule.
  unfoldable pub fill_rule : Ptr → ℤ → RuleOption → M Wrapper Ptr
  fill_rule p id o = do store_rule p id o; apply_rule_option p id o

  -- `_marpaWrapper_g_addRulep`
  unfoldable pub attach_rule : ℤ → RuleOption → M Wrapper Ptr
  attach_rule id o = do
    block ← in_rules (create_pointers env (to_size (id +ℤ pos 1)))
    if block == null then log_sys_error env "manageBuf_createp()" >> pure null else (do
      p ← ask_pointer env (malloc sizeof_rule)
      if p == null then log_sys_error env "malloc()" >> pure null else fill_rule p id o)

  -- The identifiers of the right-hand side, in the order of the option.
  abbrev pub rhs_ids : Wrapper → RuleOption → List ℤ
  rhs_ids w o = map (λ p. (w.symbol_at p).id) o.rhs

  abbrev pub first_id : List ℤ → ℤ
  first_id [] = pos 0
  first_id (i ∷ _) = i

  -- `marpa_g_sequence_new` or `marpa_g_rule_new`, with their arguments.
  unfoldable pub new_rule : RuleOption → M Wrapper ℤ
  new_rule o = do
    w ← get_state
    let lhs = (w.symbol_at o.lhs).id
    let separator = if o.separator == null then negsuc 0 else (w.symbol_at o.separator).id
    let flags = if o.proper then proper_separation else pos 0
    ask_int env (
        marpa (
          if o.sequence
          then g_sequence_new w.grammar lhs (first_id (rhs_ids w o)) separator o.minimum flags
          else g_rule_new w.grammar lhs (rhs_ids w o)))

  -- `marpaWrapper_g_addRulep` from the allocation of the identifiers on, which are freed after the
  -- call of libmarpa.
  unfoldable pub create_rule : RuleOption → M Wrapper Ptr
  create_rule o = do
    w ← get_state
    let wanted = ltb 0 (length o.rhs)
    rhs ← if wanted then ask_pointer env (malloc (mul_size (length o.rhs) sizeof_id)) else pure null
    if wanted && rhs == null then log_sys_error env "malloc()" >> pure null else (do
      id ← new_rule o
      when (not (rhs == null)) (emit (free rhs))
      if is_minus_two id then log_g_error env w.grammar >> pure null else attach_rule id o)

  -- `marpaWrapper_g_addRulep`
  unfoldable pub add_rule : Option RuleOption → M Wrapper Ptr
  add_rule none = log_error "marpaWrapperRuleOptionp is NULL" >> pure null
  add_rule (some o) =
      if o.lhs == null
      then log_error "marpaWrapperRuleOptionp->lhsSymbolp is NULL" >> pure null
      else if o.sequence && not (length o.rhs == 1)
      then log_error "A sequence must have exactly one RHS" >> pure null
      else if o.sequence && (not (eqb_ℤ o.minimum (pos 0)) && not (eqb_ℤ o.minimum (pos 1)))
      then log_error "A sequence must have a minimum of exactly 0 or 1" >> pure null
      else create_rule o
