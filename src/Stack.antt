-- ===== src/Stack.antt =====
-- src/genericStack.c and include/genericStack.h: a stack of pointers to private copies of elements,
-- in a block that doubles when it is full and halves when it is half empty.
pub mod Valid
pub mod Contents
pub mod Growth
pub mod Access
pub mod Destroy
pub mod Creation
pub mod Tally
pub mod Ends
pub mod Runs
use Prim.Native.Nat.{bit_and}
use marpa_wrapper.Prelude.{
  ℕ, zero, suc, ◌+◌, ◌-◌, ◌*◌, ◌/◌, ◌%◌, ◌^◌, Bool, true, false, not, ◌&&◌, Option, none, some,
  List, [], ◌∷◌, ◌++◌, ltb, leb, ◌==◌, if◌then◌else◌, get_or, set, take, replicate,
}
use marpa_wrapper.Prelude.Int.{ℤ, pos, eqb_ℤ, mul_size, uint_mod, sizeof_pointer}
use marpa_wrapper.World.{
  StackError, system, parameter, runtime, callback, Ptr, null, Call, malloc, realloc, free, memcpy,
  errno, failure_callback, free_callback, copy_callback, Trace, Env, M, pure, ◌>>=◌, ◌>>◌,
  get_state, put_state, emit, when, ask_pointer, ask_int,
}

abbrev pub stack_init_size : ℕ
stack_init_size = 4

-- sizeof(genericStack_t) on the platforms with 8-byte pointers
abbrev pub sizeof_stack : ℕ
sizeof_stack = 88

-- the numbers of `genericStack_error_parameter_t` and `genericStack_error_runtime_t`
abbrev pub element_size_error : ℤ
element_size_error = pos 0

abbrev pub stack_empty : ℤ
stack_empty = pos 0

abbrev pub too_small_get : ℤ
too_small_get = pos 1

abbrev pub too_small_set : ℤ
too_small_set = pos 2

-- `genericStack_option_t`. A callback that is set is `some` of its user data.
pub record StackOption : Type 0 where
  pub grow_flags : ℕ
  pub failure : Option Ptr
  pub free_element : Option Ptr
  pub copy_element : Option Ptr

abbrev pub option_grow_on_get : ℕ
option_grow_on_get = 0x01

abbrev pub option_grow_on_set : ℕ
option_grow_on_set = 0x02

abbrev pub has_flag : ℕ → ℕ → Bool
has_flag flags bit = bit_and flags bit == bit

-- `struct genericStack`. `slots` is what the block at `block` holds, `bytes` the size of the block.
pub record Stack : Type 0 where
  pub block : Ptr
  pub bytes : ℕ
  pub slots : List Ptr
  pub alloc_size : ℕ
  pub stack_size : ℕ
  pub element_size : ℕ
  pub failure : Option Ptr
  pub free_element : Option Ptr
  pub copy_element : Option Ptr
  pub grow_on_set : Bool
  pub grow_on_get : Bool

module _ {S : Type 0} where
  -- the test for a failure callback, and its call
  abbrev pub report : Option Ptr → StackError → ℤ → M S (Unit {0})
  report none kind number = pure tt
  report (some user) kind number = emit (failure_callback user kind number)

module _ {S : Type 0} (env : Env) where
  abbrev pub report_errno : Option Ptr → M S (Unit {0})
  report_errno none = pure tt
  report_errno (some user) = do
    number ← ask_int env errno
    emit (failure_callback user system number)

  -- What follows a callback: a status other than 0 is reported, and not more.
  abbrev pub report_status : Option Ptr → ℤ → M S (Unit {0})
  report_status f status = when (not (eqb_ℤ status (pos 0))) (report f callback status)

-- The structure that `genericStack_newp` fills: every field of the option, or no callback and no
-- growth where there is none.
abbrev pub failure_of : Option StackOption → Option Ptr
failure_of none = none
failure_of (some o) = o.failure

abbrev pub fresh : Ptr → ℕ → Option StackOption → Stack
fresh block element_size none = record {
  block = block;
  bytes = mul_size element_size stack_init_size;
  slots = replicate 4 null;
  alloc_size = stack_init_size;
  stack_size = 0;
  element_size = element_size;
  failure = none;
  free_element = none;
  copy_element = none;
  grow_on_set = false;
  grow_on_get = false;
}
fresh block element_size (some o) = record {
  block = block;
  bytes = mul_size element_size stack_init_size;
  slots = replicate 4 null;
  alloc_size = stack_init_size;
  stack_size = 0;
  element_size = element_size;
  failure = o.failure;
  free_element = o.free_element;
  copy_element = o.copy_element;
  grow_on_set = has_flag o.grow_flags option_grow_on_set;
  grow_on_get = has_flag o.grow_flags option_grow_on_get;
}

module _ (env : Env) where
  -- `genericStack_newp`: the address of the structure, and the structure. The block has
  -- `element_size * 4` bytes.
  unfoldable pub new : {S : Type 0} → ℕ → Option StackOption → M S (Option (Ptr × Stack))
  new element_size option =
      if element_size == 0
      then report (failure_of option) parameter element_size_error >> pure none
      else (do
        header ← ask_pointer env (malloc sizeof_stack)
        if header == null then report_errno env (failure_of option) >> pure none else (do
          block ← ask_pointer env (malloc (mul_size element_size stack_init_size))
          if block == null
              then report_errno env (failure_of option) >> (emit (free header) >> pure none)
              else pure (some (header, fresh block element_size option))))

  -- The growth in `genericStack_pushi`: a block of twice the slots, the new ones NULL. `none` is the
  -- loop that fills them when it does not end: its counter is an `unsigned int`, which stays below
  -- `allocSizei` for ever where that is 2^32 or more.
  pub grow : M Stack (Option Bool)
  grow = do
    s ← get_state
    let alloc_size = mul_size s.alloc_size 2
    let bytes = mul_size alloc_size sizeof_pointer
    block ← ask_pointer env (realloc s.block bytes)
    if block == null
        then report_errno env s.failure >> pure (some false)
        else if leb uint_mod alloc_size
        then pure none
        else put_state (record s {
          block = block;
          bytes = bytes;
          slots = s.slots ++ replicate (alloc_size - s.alloc_size) null;
          alloc_size = alloc_size;
        })
          >> pure (some true)

  -- The private copy that `genericStack_pushi` and `genericStack_seti` make of an element; NULL
  -- when there is no memory.
  unfoldable pub copy : Ptr → M Stack Ptr
  copy element = do
    s ← get_state
    new_element ← ask_pointer env (malloc s.element_size)
    if new_element == null
        then report_errno env s.failure >> pure null
        else emit (memcpy new_element element s.element_size) >> (elim s.copy_element [
          | none ↦ pure new_element
          | some user ↦ do
            status ← ask_int env (copy_callback user new_element element)
            report_status env s.failure status
            pure new_element
        ])

  -- `bufpp[stackSizei] = p; stackSizei++`
  abbrev pub append : Ptr → M Stack ℕ
  append p = do
    s ← get_state
    put_state (record s { slots = set s.slots s.stack_size p; stack_size = s.stack_size + 1 })
    pure 1

  -- The part of `genericStack_pushi` after the growth.
  pub push_element : Ptr → M Stack ℕ
  push_element element = if element == null then append null else (do
    new_element ← copy element
    if new_element == null then pure 0 else append new_element)

  -- What follows the growth.
  abbrev pub push_grown : Ptr → Option Bool → M Stack (Option ℕ)
  push_grown element none = pure none
  push_grown element (some grown) =
      if grown then (do status ← push_element element; pure (some status)) else pure (some 0)

  -- `genericStack_pushi`; `none` is a growth that does not end.
  pub push : Ptr → M Stack (Option ℕ)
  push element = do
    s ← get_state
    if leb s.alloc_size s.stack_size
        then (do grown ← grow; push_grown element grown)
        else push_grown element (some true)

  -- The shrinking in `genericStack_popp`. A block that cannot be moved is kept.
  unfoldable pub shrink : M Stack (Unit {0})
  shrink = do
    s ← get_state
    if leb (s.stack_size * 2) s.alloc_size && leb 8 s.alloc_size
        then (do
          let alloc_size = s.alloc_size / 2
          let bytes = mul_size alloc_size sizeof_pointer
          block ← ask_pointer env (realloc s.block bytes)
          if block == null
              then pure tt
              else put_state (record s {
                block = block;
                bytes = bytes;
                slots = take alloc_size s.slots;
                alloc_size = alloc_size;
              }))
        else pure tt

  -- `genericStack_popp`
  unfoldable pub pop : M Stack Ptr
  pop = do
    s ← get_state
    if s.stack_size == 0 then report s.failure runtime stack_empty >> pure null else (do
      let value = get_or s.slots (s.stack_size - 1) null
      put_state (record s { stack_size = s.stack_size - 1 })
      shrink
      pure value)

  -- `while (index >= allocSizei) genericStack_pushi(genericStackp, NULL)`, with at most as many
  -- rounds as the first argument says; `none` means that the loop, or the growth within a round of it,
  -- is still running.
  pub grow_to : ℕ → ℕ → M Stack (Option (Unit {0}))
  grow_to zero index s t = (if leb s.alloc_size index then none else some tt, s, t)
  grow_to (suc rounds) index s t =
      let pushed = push null s t in
      let rest = grow_to rounds index pushed.1 pushed.2 in
      if leb s.alloc_size index
      then (elim pushed.0 [ none ↦ (none, pushed.1, pushed.2) | some _ ↦ rest ])
      else (some tt, s, t)

  -- `genericStack_getp` after its growth, which ended or is still running.
  unfoldable pub get_grown : ℕ → Option (Unit {0}) → M Stack (Option Ptr)
  get_grown index none = pure none
  get_grown index (some _) = do
    s ← get_state
    if leb s.stack_size index && not s.grow_on_get
        then report s.failure runtime too_small_get >> pure (some null)
        else pure (some (get_or s.slots index null))

  -- `genericStack_getp`; `none` means that the growth has not ended within `index + 1` rounds.
  unfoldable pub get : ℕ → M Stack (Option Ptr)
  get index = do
    s ← get_state
    ended ←
        if leb s.alloc_size index && s.grow_on_get
        then grow_to (index + 1) index
        else pure (some tt)
    get_grown index ended

  -- What `genericStack_seti` and `genericStack_destroyv` do with the element in a slot: nothing for
  -- NULL, else the callback, the report of its status, and `free`.
  unfoldable pub release : Ptr → M Stack (Unit {0})
  release p = do
    s ← get_state
    if p == null
        then pure tt
        else (elim s.free_element [
          | none ↦ pure tt
          | some user ↦ do
            status ← ask_int env (free_callback user p)
            report_status env s.failure status
        ]
            >> emit (free p))

  -- `bufpp[index] = p`, then `stackSizei` raised to `index + 1`, a sum of `unsigned int`
  abbrev pub write_slot : ℕ → Ptr → M Stack ℕ
  write_slot index p = do
    s ← get_state
    let min_size = (index + 1) % uint_mod
    put_state (record s {
      slots = set s.slots index p;
      stack_size = if ltb s.stack_size min_size then min_size else s.stack_size;
    })
    pure 1

  -- `bufpp[index] = NULL` after the old element was released
  abbrev pub clear_slot : ℕ → M Stack (Unit {0})
  clear_slot index = do s ← get_state; put_state (record s { slots = set s.slots index null })

  -- The part of `genericStack_seti` after the tests.
  unfoldable pub set_element : ℕ → Ptr → M Stack ℕ
  set_element index element = do
    s ← get_state
    release (get_or s.slots index null)
    clear_slot index
    if element == null then write_slot index null else (do
      new_element ← copy element
      if new_element == null then pure 0 else write_slot index new_element)

  -- `genericStack_seti` after its growth.
  unfoldable pub set_grown : ℕ → Ptr → Option (Unit {0}) → M Stack (Option ℕ)
  set_grown index element none = pure none
  set_grown index element (some _) = do
    s ← get_state
    if leb s.stack_size index && not s.grow_on_set
        then report s.failure runtime too_small_set >> pure (some 0)
        else (do status ← set_element index element; pure (some status))

  -- `genericStack_seti`; `none` as for `get`.
  unfoldable pub set_at : ℕ → Ptr → M Stack (Option ℕ)
  set_at index element = do
    s ← get_state
    ended ←
        if leb s.alloc_size index && s.grow_on_set
        then grow_to (index + 1) index
        else pure (some tt)
    set_grown index element ended

  -- The loop of `genericStack_destroyv` over all the slots. Its counter is an `unsigned int` too and
  -- does not wrap: `new` makes 4 slots, and `grow` never comes back with 2^32 or more.
  pub release_all : List Ptr → M Stack (Unit {0})
  release_all [] = pure tt
  release_all (p ∷ ps) = release p >> release_all ps

  -- `genericStack_destroyv` on a stack that is not NULL: `header` is its own address.
  pub destroy : Ptr → M Stack (Unit {0})
  destroy header = do
    s ← get_state
    release_all (take s.alloc_size s.slots)
    emit (free s.block)
    emit (free header)

-- `genericStack_sizei`
pub size : Option Stack → ℕ
size none = 0
size (some s) = s.stack_size
