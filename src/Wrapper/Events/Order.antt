-- ===== src/Wrapper/Events/Order.antt =====
-- The order in which events are handed to the callback.
use marpa_wrapper.Prelude.{ℕ, ◌≡◌, ◌⊎◌, inl, inr, arith}
use marpa_wrapper.Prelude.Int.{ℤ, pos}
use marpa_wrapper.Wrapper.{completed, nulled, predicted}
use marpa_wrapper.Wrapper.Events.{Event, event_weight, event_cmp, kind_of, subscribed}

-- The flags that `_marpaWrapper_event` writes into an event.
abbrev pub IsFlag : ℕ → Type 0
IsFlag flag = (flag ≡ completed) ⊎ (flag ≡ nulled) ⊎ (flag ≡ predicted)

pub kind_of-IsFlag : (i : ℤ) (flag : ℕ) → kind_of i ≡ subscribed flag → IsFlag flag
unfolding kind_of
kind_of-IsFlag i flag e = ground arith

-- The comparison that `_marpaWrapper_event` sorts by tells no two events apart that it has built: it
-- takes the weights of the wrapper's flags 1, 2 and 4 by a `switch` over the constants of libmarpa,
-- where they mean a counted nullable, a threshold of Earley items and loop rules.
pub event_cmp-IsFlag : (a b : Event) → IsFlag a.0 → IsFlag b.0 → event_cmp a b ≡ pos 0
unfolding event_cmp event_weight
event_cmp-IsFlag a b (inl p) (inl q) = rw (p, q)
event_cmp-IsFlag a b (inl p) (inr (inl q)) = rw (p, q)
event_cmp-IsFlag a b (inl p) (inr (inr q)) = rw (p, q)
event_cmp-IsFlag a b (inr (inl p)) (inl q) = rw (p, q)
event_cmp-IsFlag a b (inr (inl p)) (inr (inl q)) = rw (p, q)
event_cmp-IsFlag a b (inr (inl p)) (inr (inr q)) = rw (p, q)
event_cmp-IsFlag a b (inr (inr p)) (inl q) = rw (p, q)
event_cmp-IsFlag a b (inr (inr p)) (inr (inl q)) = rw (p, q)
event_cmp-IsFlag a b (inr (inr p)) (inr (inr q)) = rw (p, q)
