-- ===== src/Buf/Dangling.antt =====
-- `manageBuf_createp` when a second `realloc` of one call fails.
use marpa_wrapper.Prelude.{ℕ, suc, ◌*◌, ◌<◌, ◌≡◌, ◌≢◌, refl, some, ◌∷◌, arith}
use marpa_wrapper.Prelude.Int.{mul_size, sizeof_pointer}
use marpa_wrapper.World.{null, realloc, Trace, Env}
use marpa_wrapper.Buf.{Buf, failed, resize, finish, create}
use marpa_wrapper.Buf.Valid.{most_pointers}

module _ (env : Env) where
  resize_second_fails :
      (rounds wanted pp bytes size first second : ℕ) (b : Buf) (t : Trace)
      → 0 < size
      → size * 2 < wanted
      → wanted < most_pointers
      → first ≡ mul_size (mul_size size 2) sizeof_pointer
      → second ≡ mul_size (mul_size (mul_size size 2) 2) sizeof_pointer
      → env.address t (realloc pp first) ≢ null
      → env.address (realloc pp first ∷ t) (realloc (env.address t (realloc pp first)) second)
        ≡ null
      → resize env (suc (suc rounds)) wanted sizeof_pointer pp bytes size size b t
        ≡ (failed, b, realloc (env.address t (realloc pp first)) second ∷ realloc pp first ∷ t)
  unfolding resize
  resize_second_fails rounds wanted pp bytes size first second b t some_size far few e1 e2 =
      rw (e1, e2) (λ moved_ok second_fails. ground arith)

  -- An array that is not empty and has to double twice, when the second `realloc` fails: NULL is
  -- returned and the caller keeps the block that the first `realloc` has taken back.
  pub create_dangling :
      (wanted : ℕ) (b : Buf) (t : Trace)
      → 0 < b.size
      → b.size * 2 < wanted
      → wanted < most_pointers
      → env.address t (realloc b.block (b.size * 2 * sizeof_pointer)) ≢ null
      → env.address (realloc b.block (b.size * 2 * sizeof_pointer) ∷ t) (
          realloc
            (env.address t (realloc b.block (b.size * 2 * sizeof_pointer)))
            (b.size * 4 * sizeof_pointer))
        ≡ null
      → let moved = env.address t (realloc b.block (b.size * 2 * sizeof_pointer)) in
        create env wanted sizeof_pointer b t ≡ (
          some null,
          b,
          realloc moved (b.size * 4 * sizeof_pointer)
              ∷ realloc b.block (b.size * 2 * sizeof_pointer)
              ∷ t,
        )
  unfolding create finish
  create_dangling wanted b t some_size far few moved_ok second_fails =
      rw
        (resize_second_fails 63 wanted b.block b.bytes b.size (b.size * 2 * sizeof_pointer)
          (b.size * 4 * sizeof_pointer) b t some_size far few (omega arith) (omega arith) moved_ok
          second_fails)
        refl
