-- ===== src/Tests/Reports.antt =====
-- The theorems on the progress report and on messages.
use Prim.Native.String.{String}
use marpa_wrapper.Prelude.{◌≡◌, ◌⊎◌, refl, [], ◌∷◌, false, arith}
use marpa_wrapper.Prelude.Int.{ℤ, pos, negsuc, pos_part}
use marpa_wrapper.World.{
  Trace, Call, vsnprintf, marpa, r_latest_earley_set, log, error, na, info, Env,
}
use marpa_wrapper.Buf.{empty, free_all}
use marpa_wrapper.Wrapper.{Wrapper}
use marpa_wrapper.Wrapper.Recognize.{PtrSorter}
use marpa_wrapper.Wrapper.ProgressReport.{report_items, report, progress}
use marpa_wrapper.Wrapper.ProgressReport.Items.{Collects, report_items-Collects}
use marpa_wrapper.Wrapper.ProgressReport.Range.{bound, IsWindow, progress-IsWindow}
use marpa_wrapper.Message.Fits.{Formats}
use marpa_wrapper.Logger.{Logger}
use marpa_wrapper.Tests.{world, small, addresses, outputs}
use marpa_wrapper.Tests.Bufs.{empty-IsValid}

abbrev started : Wrapper
started = record small { recognizer = 9 }

report_items-Collects_example :
    let (outcome, w', _) = report_items world 3 (pos 0) started [] in
    Collects 3 outcome empty w'.progress
report_items-Collects_example =
    report_items-Collects world (pos 0) 3 started [] empty-IsValid (omega arith)

abbrev same_pointers : PtrSorter
same_pointers cmp ps = ps

progress-IsWindow_example :
    let c = marpa (r_latest_earley_set 9) in
    let t' = (free_all started.progress []).2 in
    let latest = world.value t' c in
    let w' : Wrapper = record started { progress = empty } in
    (IsWindow latest (bound latest (negsuc 0)) (bound latest (pos 0))
      × (progress world same_pointers (negsuc 0) (pos 0) started []
          ≡ report world same_pointers
              (pos_part (bound latest (negsuc 0)))
              (pos_part (bound latest (pos 0)))
              w'
              (c ∷ t')))
    ⊎ ((¬ IsWindow latest (bound latest (negsuc 0)) (bound latest (pos 0)))
        × ((text : String) × (progress world same_pointers (negsuc 0) (pos 0) started []
              ≡ (false, w', log error na (pos 0) text ∷ c ∷ t'))))
progress-IsWindow_example =
    progress-IsWindow world same_pointers (negsuc 0) (pos 0) started [] (omega arith)

-- A world in which every message has 5000 characters, more than the first block.
abbrev lengths : Trace → Call → ℤ
lengths t (vsnprintf p size) = pos 5000
lengths t c = pos 0

abbrev long_world : Env
long_world = record { address = addresses; value = lengths; output = outputs }

long_world-Formats : Formats long_world 5000
long_world-Formats = record { answers = λ t p size. refl }

abbrev strict_logger : Logger
strict_logger = record { callback = 7; user = 8; level = info }
