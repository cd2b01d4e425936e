-- ===== src/Wrapper/Valuation/Roles.antt =====
-- The calls of libmarpa that a valuation is made of, by their role.
use marpa_wrapper.Prelude.{ℕ, Bool, true, false}
use marpa_wrapper.World.{
  Ptr, MarpaCall, b_new, b_unref, o_new, o_unref, t_new, t_next, t_unref, v_new, v_step, v_unref,
  Trace,
}
use marpa_wrapper.World.Tally.{Weight}

-- the objects of libmarpa that a valuation makes
pub data Kind : Type 0 where
  bocage order tree value : Kind

abbrev pub same : Kind → Kind → Bool
same bocage bocage = true
same order order = true
same tree tree = true
same value value = true
same _ _ = false

pub data Role : Type 0 where
  creates : Kind → Role
  drops : Kind → Ptr → Role
  advances steps other : Role

abbrev pub role : MarpaCall → Role
role (b_new _ _) = creates bocage
role (o_new _) = creates order
role (t_new _) = creates tree
role (v_new _) = creates value
role (b_unref p) = drops bocage p
role (o_unref p) = drops order p
role (t_unref p) = drops tree p
role (v_unref p) = drops value p
role (t_next _) = advances
role (v_step _) = steps
role _ = other

-- Calls that count by their role.
abbrev pub by_role : (Trace → MarpaCall → Role → ℕ) → Weight
by_role g t c = elim (role c) as (λ _. ℕ) [
  | creates k ↦ g t c (creates k)
  | drops k p ↦ g t c (drops k p)
  | advances ↦ g t c advances
  | steps ↦ g t c steps
  | other ↦ 0
]
