-- ===== src/Wrapper/ProgressReport/Items.antt =====
-- The loop of the progress report over the items of an Earley set: what it leaves in the array.
use marpa_wrapper.Prelude.{
  ℕ, zero, suc, ◌+◌, ◌-◌, ◌≤◌, ◌<◌, ◌≡◌, ◌≢◌, ltb, ◌⊎◌, inl, inr, refl, ◌∙◌, Option, arith, ◌∷◌,
  ◌==◌, Bool-cases, get_or, replicate, get_or-append,
}
use marpa_wrapper.Prelude.Int.{ℤ, sizeof_pointer, is_minus_one, is_minus_two}
use marpa_wrapper.World.{Ptr, null, Call, malloc, marpa, r_progress_item, Trace, Env}
use marpa_wrapper.Buf.{Buf, create}
use marpa_wrapper.Buf.Valid
use marpa_wrapper.Buf.Valid.{most_pointers, create-Creates, Creates}
use marpa_wrapper.Wrapper.{Wrapper, create_pointers}
use marpa_wrapper.Wrapper.Tables.{Puts, Puts-create}
use marpa_wrapper.Wrapper.ProgressReport.{
  Outcome, completed_loop, broken, returned, sizeof_progress, store_item, report_item, report_items,
}

-- `after` is a valid array with `n` pointers more than `before`, none of them NULL, and what `before`
-- held stands where it stood.
pub record Adds (n : ℕ) (before after : Buf) : Type 0 where
  pub valid : Valid.IsValid after
  pub used : after.used ≡ before.used + n
  pub placed : (i : ℕ) → before.used ≤ i → i < after.used → get_or after.slots i null ≢ null
  pub kept : (i : ℕ) → i < before.used → get_or after.slots i null ≡ get_or before.slots i null

Adds-none : (b : Buf) → Valid.IsValid b → Adds 0 b b
Adds-none b v = record {
  valid = v;
  used = omega arith;
  placed = λ i above below. absurd (omega arith);
  kept = λ i below. refl;
}

Adds-trans : (m n : ℕ) (a b c : Buf) → Adds m a b → Adds n b c → Adds (m + n) a c
Adds-trans m n a b c f g = record {
  valid = g.valid;
  used = omega (arith, f.used, g.used);
  placed = λ i above below. elim (Bool-cases (ltb i b.used)) [
    | inl held ↦ ground (arith, f.placed i above, g.kept i)
    | inr new ↦ g.placed i (ground arith) below
  ];
  kept = λ i below. g.kept i (omega (arith, f.used)) ∙ f.kept i below;
}

Adds-room :
    (wanted : ℕ) (b room : Buf) (result : Option Ptr)
    → Valid.IsValid b
    → Creates wanted b result room
    → Adds 0 b room
Adds-room wanted b room result v (inl (refused, same)) = rw same (Adds-none b v)
Adds-room wanted b room result v (inr (answer, fresh, valid, enough, slots, used)) = record {
  valid = valid;
  used = omega arith;
  placed = λ i above below. absurd (omega arith);
  kept = λ i below. rw slots (
      get_or-append b.slots (replicate (room.size - b.size) null) i null
        (omega (arith, v.held, v.within)));
}

Adds-Puts :
    (p : Ptr) (before room : Buf)
    → Valid.IsValid before
    → p ≢ null
    → Puts before.used p before room
    → Adds 1 before room
Adds-Puts p before room v ne puts = record {
  valid = puts.valid;
  used = puts.used;
  placed =
      λ i above below. let e : i ≡ before.used = omega (arith, puts.used) in rw (e, puts.placed) ne;
  kept = λ i below. puts.kept i (omega arith) (omega (arith, v.within));
}

-- How a loop over `n` items may leave the array: with all of them, or broken off before the last.
abbrev pub Collects : ℕ → Outcome → Buf → Buf → Type 0
Collects n outcome before after =
    ((outcome ≡ completed_loop) × Adds n before after)
    ⊎ (((outcome ≡ broken) ⊎ (outcome ≡ returned)) × ((k : ℕ) × (k < n) × Adds k before after))

-- A loop after its first round.
Collects-after :
    (n : ℕ) (outcome : Outcome) (a b c : Buf)
    → Adds 1 a b
    → Collects n outcome b c
    → Collects (suc n) outcome a c
Collects-after n outcome a b c first (inl (all, more)) =
    inl (all, add_first n (Adds-trans 1 n a b c first more))
  where
    add_first : (k : ℕ) → Adds (1 + k) a c → Adds (suc k) a c
    add_first k adds = record {
      valid = adds.valid;
      used = omega (arith, adds.used);
      placed = adds.placed;
      kept = adds.kept;
    }
Collects-after n outcome a b c first (inr (stop, (k, small, more))) =
    inr (stop, (1 + k, omega arith, Adds-trans 1 k a b c first more))

module _ (env : Env) (earley_set : ℤ) where
  report_item-Collects :
      (w : Wrapper) (t : Trace)
      → Valid.IsValid w.progress
      → w.progress.used + 1 < most_pointers
      → let (outcome, w', _) = report_item env earley_set w t in
        Collects 1 outcome w.progress w'.progress
  unfolding report_item store_item
  report_item-Collects w t v few = elim (Bool-cases (is_minus_two (env.value t c))) [
    | inl refused ↦ rw refused (inr (inl refl, (0, omega arith, Adds-none w.progress v)))
    | inr found ↦ elim (Bool-cases (is_minus_one (env.value t c))) [
      | inl ended ↦ rw (found, ended) (inr (inl refl, (0, omega arith, Adds-none w.progress v)))
      | inr item ↦ elim (Bool-cases (block == null)) [
        | inl no_room ↦ rw (found, item, no_room) (inr (inl refl, (0, omega arith, same)))
        | inr made ↦ elim (Bool-cases (p == null)) [
          | inl no_item ↦ rw (found, item, made, no_item) (inr (inr refl, (0, omega arith, same)))
          | inr allocated ↦
              rw (found, item, made, allocated, used)
                (inl (
                  refl,
                  Adds-Puts p w.progress _ v (ground arith)
                      (Puts-create env w.progress.used p w.progress (c ∷ t) few v (ground arith)),
                ))
        ]
      ]
    ]
  ]
    where
      c : Call
      c = marpa (r_progress_item w.recognizer)

      block : Ptr
      block = (create_pointers env (w.progress.used + 1) w.progress (c ∷ t)).0

      room : Buf
      room = (create_pointers env (w.progress.used + 1) w.progress (c ∷ t)).1

      p : Ptr
      p =
          env.address (create_pointers env (w.progress.used + 1) w.progress (c ∷ t)).2
            (malloc sizeof_progress)

      same : Adds 0 w.progress room
      same =
          Adds-room (w.progress.used + 1) w.progress room
            (create env (w.progress.used + 1) sizeof_pointer w.progress (c ∷ t)).0 v
            (create-Creates env (w.progress.used + 1) w.progress (c ∷ t) v (omega arith) few)

      used : room.used ≡ w.progress.used
      used = omega (arith, same.used)

  -- The loop over the items of an Earley set, on a valid array that stays below 2^59 pointers: it
  -- ends with exactly `n` pointers more, or is broken off with fewer, and in either case the array is
  -- valid, the slots of the new ones hold no NULL, and what it held before stands where it stood.
  pub report_items-Collects :
      (n : ℕ) (w : Wrapper) (t : Trace)
      → Valid.IsValid w.progress
      → w.progress.used + n < most_pointers
      → let (outcome, w', _) = report_items env n earley_set w t in
        Collects n outcome w.progress w'.progress
  unfolding report_items
  report_items-Collects zero w t v few = inl (refl, Adds-none w.progress v)
  report_items-Collects (suc n) w t v few = elim (report_item-Collects w t v (omega arith)) [
    | inl (e, adds) ↦ rw (goes_on e) (
        Collects-after n _ w.progress first.1.progress _ adds
          (report_items-Collects n first.1 first.2 adds.valid (omega (arith, adds.used))))
    | inr (inl e, (k, small, adds)) ↦ rw (stops_broken e) (inr (inl refl, (k, omega arith, adds)))
    | inr (inr e, (k, small, adds)) ↦ rw (stops_returned e) (inr (inr refl, (k, omega arith, adds)))
  ]
    where
      first : Outcome × Wrapper × Trace
      first = report_item env earley_set w t

      goes_on :
          first.0 ≡ completed_loop
          → report_items env (suc n) earley_set w t ≡ report_items env n earley_set first.1 first.2
      goes_on e = ground arith

      stops_broken :
          first.0 ≡ broken → report_items env (suc n) earley_set w t ≡ (broken, first.1, first.2)
      stops_broken e = ground arith

      stops_returned :
          first.0 ≡ returned
          → report_items env (suc n) earley_set w t ≡ (returned, first.1, first.2)
      stops_returned e = ground arith
