-- ===== src/Wrapper/ProgressReport.antt =====
-- The progress report: `marpaWrapper_r_progressb` of src/marpaWrapper.c, and the comparison by which
-- it sorts.
pub mod Items
pub mod Range
use marpa_wrapper.Prelude.{
  ℕ, zero, suc, ◌+◌, ◌-◌, Bool, true, false, ◌||◌, ◌∷◌, ◌++◌, ltb, ◌==◌, if◌then◌else◌, get_or, set,
  take, drop,
}
use marpa_wrapper.Prelude.Int.{
  ℤ, pos, negsuc, pos_part, ◌+ℤ◌, ltb_ℤ, is_negative, is_minus_two, is_minus_one,
}
use marpa_wrapper.World.{
  Ptr, null, malloc, marpa, r_latest_earley_set, r_earleme, r_progress_report_start,
  r_progress_item, r_progress_report_finish, Trace, Env, M, pure, ◌>>=◌, ◌>>◌, get_state, put_state,
  ask_int, ask_pointer,
}
use marpa_wrapper.Buf.{free_all}
use marpa_wrapper.Wrapper.{
  at_id, Wrapper, Progress, update, log_error, log_g_error, log_sys_error, in_progress,
  create_pointers,
}
use marpa_wrapper.Wrapper.Recognizer.{not_started}
use marpa_wrapper.Wrapper.Recognize.{PtrSorter}

-- sizeof(marpaWrapperProgress_t)
abbrev pub sizeof_progress : ℕ
sizeof_progress = 24

-- `_marpaWrapper_progress_cmp`, on the items at two addresses: by rule, then by position.
pub progress_cmp : Wrapper → Ptr → Ptr → ℤ
progress_cmp w a b =
    let p1 = w.progress_at a in
    let p2 = w.progress_at b in
    let id1 = (w.rule_at p1.rule).id in
    let id2 = (w.rule_at p2.rule).id in
    if ltb_ℤ id1 id2
    then negsuc 0
    else if ltb_ℤ id2 id1
    then pos 1
    else if ltb_ℤ p1.position p2.position
    then negsuc 0
    else if ltb_ℤ p2.position p1.position
    then pos 1
    else pos 0

-- How a loop of the report ends: by its condition, by `rcb = MARPAWRAPPER_BOOL_FALSE; break`, or by a
-- return of FALSE.
pub data Outcome : Type 0 where
  completed_loop : Outcome
  broken : Outcome
  returned : Outcome

-- A number that counts from the end where it is negative.
abbrev pub from_end : ℤ → ℤ → ℤ
from_end latest i = if is_negative i then i +ℤ (latest +ℤ pos 1) else i

-- `(i < 0) || (i > marpaLatestEarleySetIdi)`
abbrev pub is_outside : ℤ → ℤ → Bool
is_outside latest i = is_negative i || ltb_ℤ latest i

module _ (env : Env) where
  -- The new item in its slot, the one after the last. `nMarpaWrapperProgressi` of the function and of
  -- the wrapper are one number: both are 0 before the loop and set together.
  unfoldable pub store_item : Ptr → Progress → M Wrapper (Unit {0})
  store_item p item = do
    w ← get_state
    put_state (record w {
      progress = record (w.progress) {
        slots = set w.progress.slots w.progress.used p;
        used = w.progress.used + 1;
      };
      progress_at = update w.progress_at p item;
    })

  -- One item of the report on an Earley set.
  unfoldable pub report_item : ℤ → M Wrapper Outcome
  report_item earley_set w t =
      let c = marpa (r_progress_item w.recognizer) in
      let id = env.value t c in
      (if is_minus_two id
          then log_g_error env w.grammar >> pure broken
          else if is_minus_one id
          then log_error "Progress report failure" >> pure broken
          else (do
            block ← in_progress (create_pointers env (w.progress.used + 1))
            if block == null then log_sys_error env "manageBuf_createp()" >> pure broken else (do
              p ← ask_pointer env (malloc sizeof_progress)
              if p == null
                  then log_sys_error env "malloc()" >> pure returned
                  else store_item p (record {
                    earley_set = earley_set;
                    origin = env.output t c 1;
                    rule = at_id w.rules.slots id;
                    position = env.output t c 0;
                  })
                    >> pure completed_loop)))
        w (c ∷ t)

  -- The loop over the items of a set.
  unfoldable pub report_items : ℕ → ℤ → M Wrapper Outcome
  report_items zero earley_set = pure completed_loop
  report_items (suc items) earley_set = do
    outcome ← report_item earley_set
    elim outcome [ completed_loop ↦ report_items items earley_set | other ↦ pure other ]

  -- The body of the loop over the Earley sets.
  unfoldable pub report_set : ℤ → M Wrapper Outcome
  report_set earley_set = do
    w ← get_state
    earleme ← ask_int env (marpa (r_earleme w.recognizer earley_set))
    if is_minus_two earleme then log_g_error env w.grammar >> pure broken else (do
      items ← ask_int env (marpa (r_progress_report_start w.recognizer earley_set))
      if is_minus_two items
          then log_g_error env w.grammar >> pure broken
          else if is_negative items
          then log_error "Negative number of items for progress report" >> pure broken
          else report_items (pos_part items) earley_set)

  -- The loop over so many Earley sets, from one on.
  unfoldable pub report_sets : ℕ → ℕ → M Wrapper Outcome
  report_sets zero first = pure completed_loop
  report_sets (suc rounds) first = do
    outcome ← report_set (pos first)
    elim outcome [ completed_loop ↦ report_sets rounds (first + 1) | other ↦ pure other ]

module _ (env : Env) (qsort : PtrSorter) where
  -- The items in order.
  unfoldable pub sort_items : M Wrapper (Unit {0})
  sort_items = do
    w ← get_state
    let used = w.progress.used
    if ltb 0 used
        then put_state (record w {
          progress = record (w.progress) {
            slots =
                qsort (progress_cmp w) (take used w.progress.slots) ++ drop used w.progress.slots;
          };
        })
        else pure tt

  -- What follows the loops.
  unfoldable pub finish_report : Outcome → M Wrapper Bool
  finish_report returned = pure false
  finish_report outcome = do
    w ← get_state
    code ← ask_int env (marpa (r_progress_report_finish w.recognizer))
    if is_negative code
        then log_g_error env w.grammar >> pure false
        else (elim outcome [ completed_loop ↦ sort_items >> pure true | _ ↦ pure false ])

  -- The report on the Earley sets from `first` to `last`.
  unfoldable pub report : ℕ → ℕ → M Wrapper Bool
  report first last = do outcome ← report_sets env (last + 1 - first) first; finish_report outcome

  -- `marpaWrapper_r_progressb`. The items are in the array of the wrapper, to which the results
  -- through pointers lead.
  unfoldable pub progress : (first last : ℤ) → M Wrapper Bool
  progress first last = do
    w ← get_state
    if not_started w then log_error "Read phase not started" >> pure false else (do
      in_progress free_all
      latest ← ask_int env (marpa (r_latest_earley_set w.recognizer))
      if is_outside latest (from_end latest first)
          then log_error "starti must be in range" >> pure false
          else if is_outside latest (from_end latest last)
          then log_error "endi must be in range" >> pure false
          else if ltb_ℤ (from_end latest last) (from_end latest first)
          then log_error "[starti,endi] range is empty" >> pure false
          else report (pos_part (from_end latest first)) (pos_part (from_end latest last)))
