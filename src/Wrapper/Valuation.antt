-- ===== src/Wrapper/Valuation.antt =====
-- The value of a parse: the options of `marpaWrapper_vb` of src/marpaWrapper.c, and the callbacks that
-- it registers with its stack. Its loops are in Steps and Trees.
pub mod Steps
pub mod Trees
pub mod Roles
pub mod Tallies
pub mod Balance
pub mod Books
pub mod Returns
pub mod Valid
pub mod Answers
pub mod Ends
pub mod Termination
pub mod Inputs
pub mod Leaves
pub mod Endless
use marpa_wrapper.Prelude.{
  ℕ, zero, suc, ◌+◌, ◌%◌, ◌-◌, Bool, true, false, not, ◌&&◌, Option, none, some, List, [], ◌∷◌, ltb,
  ◌==◌, if◌then◌else◌, get_or,
}
use marpa_wrapper.Prelude.Int.{
  ℤ, pos, negsuc, pos_part, ◌+ℤ◌, ◌-ℤ◌, eqb_ℤ, ltb_ℤ, is_negative, is_minus_two, is_minus_one,
  uint_mod, mul_size, sizeof_pointer,
}
use Prim.Native.String.{String}
use marpa_wrapper.World.{
  StackError, system, parameter, runtime, callback, Ptr, null, error, os, na, malloc, free,
  free_callback, copy_callback, log, marpa, MarpaCall, r_latest_earley_set, b_new, b_unref, o_new,
  o_high_rank_only_set, o_rank, o_ambiguity_metric, o_is_null, o_unref, t_new, t_next, t_unref,
  v_new, v_valued_force, v_step, v_rule, v_arg_0, v_arg_n, v_result, v_token, v_token_value,
  v_symbol, v_unref, value_rule_callback, value_symbol_callback, value_nulling_callback,
  value_result_callback, Call, Trace, Env, M, pure, ◌>>=◌, ◌>>◌, get_state, emit, when, ask_int,
  ask_pointer,
}
use marpa_wrapper.Stack.{
  Stack, StackOption, option_grow_on_get, option_grow_on_set, new, get, set_at, destroy,
}
use marpa_wrapper.Wrapper.{Wrapper, to_size, log_error, log_g_error, log_sys_error}
use marpa_wrapper.Wrapper.Recognizer.{not_started}

-- `marpaWrapperValueOption_t`. A callback that is set is `some` of its user data.
pub record ValueOption : Type 0 where
  pub high_rank_only : Bool
  pub order_by_rank : Bool
  pub ambiguity : Bool
  pub null_parse : Bool
  pub rule_callback : Option Ptr
  pub symbol_callback : Option Ptr
  pub nulling_callback : Option Ptr
  pub result_callback : Option Ptr

-- `marpaWrapper_valueOptionDefaultb`
abbrev pub value_option_default : ValueOption
value_option_default = record {
  high_rank_only = true;
  order_by_rank = true;
  ambiguity = true;
  null_parse = true;
  rule_callback = none;
  symbol_callback = none;
  nulling_callback = none;
  result_callback = none;
}

abbrev pub chosen_value_option : Option ValueOption → ValueOption
chosen_value_option none = value_option_default
chosen_value_option (some o) = o

-- `marpaWrapperStackOption_t`: a callback is `some` of its user data, or `none` for NULL.
pub record StackFields : Type 0 where
  pub element_size : ℕ
  pub free_element : Option Ptr
  pub copy_element : Option Ptr

-- `marpaWrapper_stackOptionDefaultb`, on an argument that is not NULL
abbrev pub stack_option_default : StackFields
stack_option_default = record { element_size = 0; free_element = none; copy_element = none }

-- `marpaWrapperStackOption_t` as a valuation takes it, with the user data of its two callbacks. They
-- are set: the code calls them without a test.
pub record ElementOption : Type 0 where
  pub element_size : ℕ
  pub free_user : Ptr
  pub copy_user : Ptr

-- The option that the stack of a valuation is made with. The user data of the failure callback is the
-- wrapper, whose address the model does not have.
abbrev pub stack_option : ElementOption → StackOption
stack_option e = record {
  grow_flags = option_grow_on_get + option_grow_on_set;
  failure = some null;
  free_element = some e.free_user;
  copy_element = some e.copy_user;
}

-- What `_marpaWrapperStackFreeCallback` and `_marpaWrapperStackCopyCallback` make of the answer of the
-- application.
abbrev pub callback_status : ℤ → ℤ
callback_status i = if eqb_ℤ i (pos 1) then pos 0 else negsuc 0

abbrev pub stack_value : Env → Trace → Call → ℤ
stack_value env t (free_callback user p) = callback_status (env.value t (free_callback user p))
stack_value env t (copy_callback user dst src) =
    callback_status (env.value t (copy_callback user dst src))
stack_value env t c = env.value t c

-- The world as the stack of a valuation sees it: its callbacks are the two above, which call those of
-- the application.
abbrev pub stack_env : Env → Env
stack_env env = record env { value = stack_value env }

-- The message that `_marpaWrapperStackFailureCallback` makes of an error of the stack. In a trace the
-- call of that callback stands for it.
abbrev pub stack_failure : StackError → ℤ → Call
stack_failure system number = log error os number "Generic Stack system error"
stack_failure parameter number = log error na number "Generic Stack parameter validation error"
stack_failure runtime number = log error na number "Generic Stack runtime error"
stack_failure callback number = log error na number "Generic Stack callback error"

-- An `int` as an `unsigned int`.
abbrev pub to_uint : ℤ → ℕ
to_uint i = to_size i % uint_mod
