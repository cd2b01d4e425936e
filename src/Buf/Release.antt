-- ===== src/Buf/Release.antt =====
-- `manageBuf_freev`: what it frees, and that it leaves an empty array.
use marpa_wrapper.Prelude.{◌+◌, ◌≡◌, ◌≢◌, List, [], ◌∷◌, arith, ◌==◌, if◌then◌else◌, take}
use marpa_wrapper.World.{Ptr, null, Trace, free}
use marpa_wrapper.World.Frees.{frees, count}
use marpa_wrapper.Buf.{Buf, empty, free_slots, free_all}

frees-free_slots :
    (p : Ptr) (qs : List Ptr) (b : Buf) (t : Trace)
    → p ≢ null
    → frees p (free_slots qs b t).2 ≡ count p qs + frees p t
unfolding free_slots
frees-free_slots p [] b t ne = omega arith
frees-free_slots p (q ∷ qs) b t ne =
    ground (arith, frees-free_slots p qs b t ne, frees-free_slots p qs b (free q ∷ t) ne)

-- `manageBuf_freev` on an allocated array frees a pointer as often as it stands in the used slots,
-- and the block once; the array is empty after it, whether it was allocated or not.
pub free_all_lem :
    (p : Ptr) (b : Buf) (t : Trace)
    → p ≢ null
    → ((free_all b t).1 ≡ empty)
      × (frees p (free_all b t).2 ≡ (
          if b.block == null
          then frees p t
          else (if b.block == p then 1 else 0) + count p (take b.used b.slots) + frees p t))
unfolding free_all
free_all_lem p b t ne = ground (arith, frees-free_slots p (take b.used b.slots) b t ne)
