-- ===== src/Wrapper/Lifecycle/Balance.antt =====
-- What making and destroying a wrapper gives back.
use marpa_wrapper.Prelude.{ℕ, ◌+◌, ◌≡◌, ◌≢◌, ◌∷◌, arith, ◌==◌, if◌then◌else◌, take}
use marpa_wrapper.World.{Ptr, null, marpa, g_unref, r_unref, free, Trace}
use marpa_wrapper.World.Frees.{frees, count}
use marpa_wrapper.Buf.{Buf, free_all}
use marpa_wrapper.Buf.Release.{free_all_lem}
use marpa_wrapper.Wrapper.{Wrapper}
use marpa_wrapper.Wrapper.Lifecycle.{destroy}

-- How often an array has a pointer: as its block, and in its used slots.
abbrev pub holds : Ptr → Buf → ℕ
holds p b =
    if b.block == null then 0 else (if b.block == p then 1 else 0) + count p (take b.used b.slots)

frees-free_all :
    (p : Ptr) (b : Buf) (t : Trace) → p ≢ null → frees p (free_all b t).2 ≡ holds p b + frees p t
frees-free_all p b t ne = ground (arith, free_all_lem p b t ne)

module _ (p self : Ptr) (w : Wrapper) (t : Trace) where
  -- the traces of `destroy` before each of its parts
  abbrev unref : Trace
  unref =
      let t' = if w.recognizer == null then t else marpa (r_unref w.recognizer) ∷ t in
      if w.grammar == null then t' else marpa (g_unref w.grammar) ∷ t'

  abbrev after_symbols : Trace
  after_symbols = (free_all w.symbols unref).2

  abbrev after_rules : Trace
  after_rules = (free_all w.rules after_symbols).2

  abbrev after_progress : Trace
  after_progress = (free_all w.progress after_rules).2

  frees-unref : frees p unref ≡ frees p t
  frees-unref = ground arith

  frees-tables :
      p ≢ null
      → frees p after_progress
        ≡ holds p w.progress + holds p w.rules + holds p w.symbols + frees p t
  frees-tables ne = omega (
    arith,
    frees-unref,
    frees-free_all p w.symbols unref ne,
    frees-free_all p w.rules after_symbols ne,
    frees-free_all p w.progress after_rules ne,
  )

  destroy_trace :
      (destroy self w t).2
      ≡ free self
        ∷ (let t' =
              if w.expected_ids == null
              then after_progress
              else free w.expected_ids ∷ after_progress in
            if w.expected_symbols == null then t' else free w.expected_symbols ∷ t')
  unfolding destroy
  destroy_trace = ground arith

-- `marpaWrapper_destroyv` frees a pointer as often as the wrapper has it: in its three tables, as one
-- of its two blocks of expected symbols, and as the wrapper itself.
pub frees-destroy_wrapper :
    (p self : Ptr) (w : Wrapper) (t : Trace)
    → p ≢ null
    → frees p (destroy self w t).2
      ≡ (if self == p then 1 else 0)
        + (if w.expected_symbols == p then 1 else 0)
        + (if w.expected_ids == p then 1 else 0)
        + holds p w.progress
        + holds p w.rules
        + holds p w.symbols
        + frees p t
frees-destroy_wrapper p self w t ne =
    rw (destroy_trace p self w t) (ground (arith, frees-tables p self w t ne))
