-- ===== src/Wrapper/Life/Numbered.antt =====
-- Adding symbols and rules keeps the invariant of the wrapper of src/marpaWrapper.c, whatever libmarpa
-- answers that it documents.
use marpa_wrapper.Prelude.{
  ℕ, ◌+◌, ◌<◌, ◌≡◌, ◌⊎◌, refl, inl, inr, true, Option, none, some, List, ◌∷◌, arith, ◌==◌,
  Bool-cases, length, ltb, if◌then◌else◌,
}
use marpa_wrapper.Prelude.Int.{ℤ, pos, is_minus_two, mul_size}
use marpa_wrapper.World.{
  Ptr, null, marpa, malloc, free, MarpaCall, g_symbol_new, g_rule_new, g_sequence_new, Trace, Env,
}
use marpa_wrapper.Buf.Valid.{most_pointers}
use marpa_wrapper.Wrapper.{Wrapper, SymbolOption, RuleOption}
use marpa_wrapper.Wrapper.Symbols.{add_symbol}
use marpa_wrapper.Wrapper.Rules.{attach_rule, new_rule, create_rule, add_rule}
use marpa_wrapper.Wrapper.Recognizer.{sizeof_id}
use marpa_wrapper.Wrapper.Life.Sound.{IsSound}
use marpa_wrapper.Wrapper.Life.Additions.{attach_symbol-IsSound, attach_rule-IsSound}

-- What libmarpa answers when it makes a symbol or a rule: -2, its failure, or a number below 2^59 - 1.
abbrev pub Numbers : Env → Trace → MarpaCall → Type 0
Numbers env t c =
    (is_minus_two (env.value t (marpa c)) ≡ true)
    ⊎ ((n : ℕ) × (n + 1 < most_pointers) × (env.value t (marpa c) ≡ pos n))

pub record IsNumbered (env : Env) : Type 0 where
  pub symbol : (t : Trace) (g : Ptr) → Numbers env t (g_symbol_new g)
  pub rule : (t : Trace) (g : Ptr) (lhs : ℤ) (rhs : List ℤ) → Numbers env t (g_rule_new g lhs rhs)
  pub sequence :
      (t : Trace) (g : Ptr) (lhs rhs separator minimum flags : ℤ)
      → Numbers env t (g_sequence_new g lhs rhs separator minimum flags)

module _ (env : Env) (numbered : IsNumbered env) where
  pub add_symbol-IsSound :
      (option : Option SymbolOption) (w : Wrapper) (t : Trace)
      → IsSound w
      → IsSound (add_symbol env option w t).1
  unfolding add_symbol
  add_symbol-IsSound option w t s = elim (numbered.symbol t w.grammar) [
    | inl failed ↦ rw failed s
    | inr (n, few, e) ↦
        ground
          (arith, attach_symbol-IsSound env n option w (marpa (g_symbol_new w.grammar) ∷ t) few s)
  ]

  new_rule_lem :
      (o : RuleOption) (w : Wrapper) (t : Trace)
      → (c : MarpaCall) × Numbers env t c
        × (new_rule env o w t ≡ (env.value t (marpa c), w, marpa c ∷ t))
  unfolding new_rule
  new_rule_lem o w t = elim (Bool-cases o.sequence) [
    | inl repeats ↦ rw repeats (_, numbered.sequence t w.grammar _ _ _ _ _, refl)
    | inr other ↦ rw other (_, numbered.rule t w.grammar _ _, refl)
  ]

  numbered_rule-IsSound :
      (o : RuleOption) (w : Wrapper) (t t' : Trace) (c : MarpaCall)
      → Numbers env t c
      → IsSound w
      → IsSound (
          if is_minus_two (env.value t (marpa c))
          then w
          else (attach_rule env (env.value t (marpa c)) o w t').1)
  numbered_rule-IsSound o w t t' c makes s = elim makes [
    | inl failed ↦ rw failed s
    | inr (n, few, e) ↦ rw e (ground (arith, attach_rule-IsSound env n o w t' few s))
  ]

  create_rule-IsSound :
      (o : RuleOption) (w : Wrapper) (t : Trace) → IsSound w → IsSound (create_rule env o w t).1
  unfolding create_rule
  create_rule-IsSound o w t s = elim (Bool-cases (ltb 0 (length o.rhs))) [
    | inr empty ↦
        let (c, makes, e) = new_rule_lem o w t in
        ground (arith, e, numbered_rule-IsSound o w t (marpa c ∷ t) c makes s)
    | inl some_rhs ↦ elim (Bool-cases (block == null)) [
      | inl none_left ↦ ground arith
      | inr got ↦
          let (c, makes, e) = new_rule_lem o w asked in
          ground
            (arith, e, numbered_rule-IsSound o w asked (free block ∷ marpa c ∷ asked) c makes s)
    ]
  ]
    where
      asked : Trace
      asked = malloc (mul_size (length o.rhs) sizeof_id) ∷ t

      block : Ptr
      block = env.address t (malloc (mul_size (length o.rhs) sizeof_id))

  pub add_rule-IsSound :
      (option : Option RuleOption) (w : Wrapper) (t : Trace)
      → IsSound w
      → IsSound (add_rule env option w t).1
  unfolding add_rule
  add_rule-IsSound none w t s = s
  add_rule-IsSound (some o) w t s = ground (arith, create_rule-IsSound o w t s)
