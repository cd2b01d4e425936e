-- ===== src/Tests/Bufs.antt =====
-- The theorems on growing arrays at an empty array and at an array that has to double twice.
use marpa_wrapper.Prelude.{◌*◌, ◌≡◌, refl, inl, [], ◌∷◌, some, arith, replicate}
use marpa_wrapper.Prelude.Int.{pos, sizeof_pointer}
use marpa_wrapper.World.{Ptr, null, Trace, Call, realloc, Env}
use marpa_wrapper.Buf.{Buf, empty, create}
use marpa_wrapper.Buf.Valid.{IsValid, Creates, create-Creates}
use marpa_wrapper.Buf.Dangling.{create_dangling}
use marpa_wrapper.Tests.{world}

pub empty-IsValid : IsValid empty
empty-IsValid = record {
  held = refl;
  room = omega arith;
  within = omega arith;
  allocated = inl refl;
}

create-Creates_example :
    Creates 3 empty
      (create world 3 sizeof_pointer empty []).0
      (create world 3 sizeof_pointer empty []).1
create-Creates_example = create-Creates world 3 empty [] empty-IsValid (omega arith) (omega arith)

-- The first `realloc` answers, and none after it.
abbrev one_realloc : Trace → Call → Ptr
one_realloc [] c = 90
one_realloc (_ ∷ _) c = null

abbrev failing_world : Env
failing_world = record { address = one_realloc; value = λ t c. pos 0; output = λ t c i. pos 0 }

abbrev hundred : Buf
hundred = record { block = 80; bytes = 800; slots = replicate 100 null; size = 100; used = 0 }

create_dangling_example : create failing_world 300 sizeof_pointer hundred [] ≡ (
  some null,
  hundred,
  realloc 90 (400 * sizeof_pointer) ∷ realloc 80 (200 * sizeof_pointer) ∷ [],
)
create_dangling_example =
    create_dangling failing_world 300 hundred [] (omega arith) (omega arith) (omega arith)
      (omega arith) refl

abbrev two_used : Buf
two_used = record { block = 80; bytes = 800; slots = 81 ∷ 82 ∷ []; size = 2; used = 2 }
