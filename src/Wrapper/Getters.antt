-- ===== src/Wrapper/Getters.antt =====
-- The getters of src/marpaWrapper.c. `none` is a NULL argument, for which they return FALSE; else they
-- return TRUE and leave the field.
pub mod Added
use marpa_wrapper.Prelude.{ℕ, ◌==◌, Option, none, some, if◌then◌else◌}
use marpa_wrapper.Prelude.Int.{ℤ}
use marpa_wrapper.World.{Ptr, null}
use marpa_wrapper.Buf.{Buf}
use marpa_wrapper.Wrapper.{Wrapper, Symbol, Rule}
use marpa_wrapper.Wrapper.Valuation.{to_uint}

-- MARPAWRAPPER_GENERATE_GETTER_DEFINITION
abbrev pub get : {A B : Type 0} → (A → B) → Option A → Option B
get field none = none
get field (some a) = some (field a)

-- `marpaWrapper_sizeMarpaWrapperSymboli_getb`
pub symbols_size : Option Wrapper → Option ℕ
symbols_size = get (λ w. w.symbols.size)

-- `marpaWrapper_marpaWrapperSymbolpp_getb`
pub symbols_block : Option Wrapper → Option Ptr
symbols_block = get (λ w. w.symbols.block)

-- `marpaWrapper_sizeMarpaWrapperRulei_getb`
pub rules_size : Option Wrapper → Option ℕ
rules_size = get (λ w. w.rules.size)

-- `marpaWrapper_marpaWrapperRulepp_getb`
pub rules_block : Option Wrapper → Option Ptr
rules_block = get (λ w. w.rules.block)

-- `marpaWrapper_Marpa_Config_getb`: the configuration is the first field of the wrapper at `self`.
pub config : (self : Ptr) → Option Ptr
config self = if self == null then none else some self

-- `marpaWrapper_Marpa_Grammar_getb`
pub grammar : Option Wrapper → Option Ptr
grammar = get (λ w. w.grammar)

-- `marpaWrapper_Marpa_Recognizer_getb`
pub recognizer : Option Wrapper → Option Ptr
recognizer = get (λ w. w.recognizer)

-- `marpaWrapperSymbol_datavp_getb`
pub symbol_user : Option Symbol → Option Ptr
symbol_user = get (λ s. s.option.user)

-- `marpaWrapperSymbol_Marpa_Symbol_ID_getb`
pub symbol_id : Option Symbol → Option ℕ
symbol_id = get (λ s. to_uint s.id)

-- `marpaWrapperRule_datavp_getb`
pub rule_user : Option Rule → Option Ptr
rule_user = get (λ r. r.option.user)

-- `marpaWrapperRule_Marpa_Rule_ID_getb`
pub rule_id : Option Rule → Option ℕ
rule_id = get (λ r. to_uint r.id)

-- `marpaWrapper_genericLoggerp`
pub logger : Option Wrapper → Ptr
logger none = null
logger (some w) = w.logger
