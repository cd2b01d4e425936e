-- ===== src/Tests/Logs.antt =====
-- The theorems on how the library logs.
use marpa_wrapper.Prelude.{
  ℕ, ◌-◌, ◌/◌, ◌≡◌, ◌⊎◌, inl, inr, refl, none, some, [], ◌++◌, arith, ◌==◌, if◌then◌else◌,
}
use marpa_wrapper.Prelude.Int.{ℤ, pos, negsuc}
use marpa_wrapper.World.{
  Ptr, Trace, Call, malloc, localtime, strftime, strlen, vsnprintf, write, info, Env,
}
use marpa_wrapper.World.Blocks.{Keeps}
use marpa_wrapper.Date.{max_size}
use marpa_wrapper.Date.Balance.{FailsLate}
use marpa_wrapper.Message.Balance.{IsSteady}
use marpa_wrapper.Logger.{Logger}
use marpa_wrapper.Logger.Default.{write_all, default_callback}
use marpa_wrapper.Logger.Default.Writes.{IsWriter, addresses, sent, write_all-sends}
use marpa_wrapper.Logger.Default.Failures.{IsHonest, strays, write_all_inside}
use marpa_wrapper.Logger.Default.Balance.{IsMeasured, default_callback_returns}
use marpa_wrapper.Tests.{outputs}
use marpa_wrapper.Tests

-- A world with a clock, in which every text has 60 characters and `write` takes half of what it is
-- given, rounded up.
abbrev places : Trace → Call → Ptr
places t localtime = 500
places t c = Tests.addresses t c

abbrev counts : Trace → Call → ℤ
counts t (vsnprintf p size) = pos 60
counts t (strlen p) = pos 60
counts t (strftime p size) = pos 25
counts t (write p n) = pos (n - n / 2)
counts t c = pos 0

-- a state that is of no concern
abbrev idle : ℕ
idle = 7

abbrev three : ℕ
three = 3

abbrev clock_world : Env
clock_world = record { address = places; value = counts; output = outputs }

clock_world-IsSteady : IsSteady clock_world
clock_world-IsSteady = record { again = λ t p q size. refl }

clock_world-IsWriter : IsWriter clock_world
clock_world-IsWriter = record {
  takes = λ t p n more. (n - n / 2, refl, omega (arith, more), omega arith);
}

clock_world-IsMeasured : IsMeasured clock_world 100
clock_world-IsMeasured = record { shorter = λ t p. omega arith; possible = omega arith }

write_all-sends_example :
    let (result, _, t') = write_all clock_world 61 2000 60 (pos 0) idle [] in
    (result ≡ some (pos 60)) × (sent clock_world t' ≡ sent clock_world [] ++ addresses 60 2000)
write_all-sends_example =
    write_all-sends clock_world clock_world-IsWriter 2000 60 idle [] (omega arith)

-- A world in which nothing can be written.
abbrev refusals : Trace → Call → ℤ
refusals t (write p n) = negsuc 0
refusals t c = pos 0

abbrev closed_world : Env
closed_world = record { address = places; value = refusals; output = outputs }

closed_world-IsHonest : IsHonest closed_world
closed_world-IsHonest = record { takes = λ t p n. inl refl }

write_all_inside_example :
    let (result, _, t') = write_all closed_world 61 2000 60 (pos 3) idle [] in
    (strays 2000 60 t' ≡ strays 2000 60 [])
    × ((result ≡ none) ⊎ (result ≡ some (pos 60)) ⊎ (result ≡ some (negsuc 0)))
write_all_inside_example =
    write_all_inside closed_world closed_world-IsHonest 61 2000 60 (pos 3) idle [] (omega arith)
      (inr (3, refl, omega arith))

default_callback_returns_example :
    let (result, _, t') = default_callback clock_world 77 100 idle [] in
    let p = clock_world.address [] (malloc max_size) in
    (result ≡ some tt)
    × ((FailsLate clock_world [] p × Keeps clock_world 100 (if p == 100 then 1 else 0) [] t')
        ⊎ ((¬ FailsLate clock_world [] p) × Keeps clock_world 100 0 [] t'))
default_callback_returns_example =
    default_callback_returns clock_world clock_world-IsSteady clock_world-IsWriter 100
      clock_world-IsMeasured 100 77 idle [] (omega arith)

abbrev strict_logger : Logger
strict_logger = record { callback = 7; user = 8; level = info }
