-- ===== src/Dispatch/Examples.antt =====
-- Runs of a dispatch pass and of the check schedule on concrete inputs.
use ue4sslua_event_bridge.Base.{ℕ, ◌+◌, ◌≤◌, refl, Bool, true, false, [], ◌∷◌, arith}
use ue4sslua_event_bridge.Dispatch.Backlog.{DispatchBacklog, pending, IsWell}
use ue4sslua_event_bridge.Dispatch.Budget.{
  DispatchBudget, dispatch_budgeted, serve, Serves, dispatch_budgeted-Serves,
}
use ue4sslua_event_bridge.Dispatch.Limits.{KeepsTo, dispatch_budgeted-KeepsTo}
use ue4sslua_event_bridge.Dispatch.Schedule.{
  validated_rate, new_schedule, due, due_times, count_before, due_times_rate,
}
use ue4sslua_event_bridge.Dispatch.Progress.{passes, Drains, passes-Drains}

abbrev three : DispatchBacklog ℕ
three = record { batch = 5 ∷ 6 ∷ 7 ∷ []; index = 1 }

three-IsWell : IsWell three
three-IsWell = record { within = omega arith; small = omega arith }

-- The consumer adds its item; the clock is the sum so far.
abbrev add_item : ℕ → ℕ → ℕ → ℕ × Bool
add_item left item s = (s + item, true)

abbrev sum_clock : ℕ → ℕ
sum_clock s = s

abbrev one_callback : DispatchBudget
one_callback = record { start = 0; count = 1; time = 0 }

dispatch_budgeted-Serves_example :
    Serves add_item sum_clock one_callback
      (serve add_item sum_clock one_callback (pending three) 0 0 false)
      (dispatch_budgeted add_item sum_clock one_callback three 0)
dispatch_budgeted-Serves_example =
    dispatch_budgeted-Serves add_item sum_clock one_callback three 0 three-IsWell

dispatch_budgeted-KeepsTo_example :
    KeepsTo add_item sum_clock one_callback 2
      (dispatch_budgeted add_item sum_clock one_callback three 0)
unfolding pending
dispatch_budgeted-KeepsTo_example =
    dispatch_budgeted-KeepsTo add_item sum_clock one_callback three 0 three-IsWell
      (λ e. ground (arith, e))

due_times_rate_example : count_before 1600000000 (600000000 ∷ 1500000000 ∷ []) ≤ validated_rate 2
unfolding due_times due new_schedule validated_rate
due_times_rate_example =
    due_times_rate 2 1 600000000 (0 ∷ 600000000 ∷ 700000000 ∷ 1500000000 ∷ []) (1500000000 ∷ [])
      refl

passes-Drains_example :
    Drains add_item sum_clock (passes add_item sum_clock (one_callback ∷ one_callback ∷ []) three 0)
unfolding pending
passes-Drains_example =
    passes-Drains add_item sum_clock (one_callback ∷ one_callback ∷ []) three 0 three-IsWell
      (omega arith)
