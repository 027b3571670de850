-- ===== src/Bridge/Update.antt =====
-- on_update of bridge/src/BridgeMod.cpp with flush_loop_start_callbacks, flush_debug_traces and the
-- fetch of fresh events and traces. Clock readings are nanoseconds; the clock of a pass reads the
-- state, which holds all that the callbacks change.
pub mod Fetch
use ue4sslua_event_bridge.Base.{
  ℕ, ◌-◌, ◌^◌, not, Option, none, some, List, [], ◌∷◌, if◌then◌else◌, ◌>>=◌,
}
use ue4sslua_event_bridge.Queue.Buffers.{Buffer}
use ue4sslua_event_bridge.Dispatch.Backlog.{DispatchBacklog, empty, load, release_buffer, pending}
use ue4sslua_event_bridge.Dispatch.Budget.{dispatch_budgeted}
use ue4sslua_event_bridge.Dispatch.Schedule.{QueueDispatchSchedule, due}
use ue4sslua_event_bridge.Backend.State.{
  EnhancedInputEvent, EnhancedInputTrace, EnhancedInputBackend,
}
use ue4sslua_event_bridge.Backend.Drain.{take_events, take_traces, recycle_events, recycle_traces}
use ue4sslua_event_bridge.Bridge.LoopStart.{LuaSession, flush_loop_start_callbacks}
use ue4sslua_event_bridge.Bridge.State.{BridgeMod, lua_integer}
use ue4sslua_event_bridge.Bridge.Deliver.{
  LuaCode, call_lua, live_session, flush_delivery_faults, consume_event, consume_trace,
}

-- A backlog, with the capacity of the vector that holds its batch.
pub record Pending (T : Type 0) : Type 0 where
  pub backlog : DispatchBacklog T
  pub room : ℕ

pub record UpdateState : Type 0 where
  pub bridge : BridgeMod
  pub queue_schedule : QueueDispatchSchedule
  pub max_events_per_pass : ℕ
  pub max_dispatch_us : ℕ
  pub pending_events : Pending EnhancedInputEvent
  pub pending_traces : Pending EnhancedInputTrace

loaded_batch {ℓ} :
    {T : Type 0} {B : Type ℓ} → B → ℕ → Option (DispatchBacklog T) → Option (B × Pending T)
loaded_batch b room none = none
loaded_batch b room (some backlog) = some (b, record { backlog = backlog; room = room })

pub exchange_released {ℓ} :
    {T : Type 0} {B : Type ℓ}
    → (B → Buffer T → B × Buffer T)
    → B
    → ℕ
    → Option (List T × DispatchBacklog T)
    → Option (B × Pending T)
unfolding loaded_batch
exchange_released exchange b room none = none
exchange_released exchange b room (some (old, backlog)) =
    let (b', batch) = exchange b (record { items = old; room = room }) in
    loaded_batch b' batch.room (load backlog batch.items)

-- `release_buffer` with the capacity, `recycle` and `load`; none is a std::logic_error.
pub load_batch {ℓ} :
    {T : Type 0} {B : Type ℓ}
    → (B → Buffer T → B × Buffer T)
    → B
    → Pending T
    → Option (B × Pending T)
load_batch exchange b p = exchange_released exchange b p.room (release_buffer p.backlog)

pub exchange_events :
    EnhancedInputBackend
    → Buffer EnhancedInputEvent
    → EnhancedInputBackend × Buffer EnhancedInputEvent
exchange_events b old = take_events (recycle_events b old)

exchange_traces :
    EnhancedInputBackend
    → Buffer EnhancedInputTrace
    → EnhancedInputBackend × Buffer EnhancedInputTrace
exchange_traces b old = take_traces (recycle_traces b old)

-- Fresh events, if none is pending.
unfoldable pub fetch_events :
    EnhancedInputBackend
    → Pending EnhancedInputEvent
    → Option (EnhancedInputBackend × Pending EnhancedInputEvent)
unfolding exchange_events load_batch exchange_released
fetch_events b p = if empty p.backlog then load_batch exchange_events b p else some (b, p)

unfoldable pub fetch_traces :
    EnhancedInputBackend
    → Pending EnhancedInputTrace
    → Option (EnhancedInputBackend × Pending EnhancedInputTrace)
unfolding exchange_traces load_batch exchange_released
fetch_traces b p = if empty p.backlog then load_batch exchange_traces b p else some (b, p)

-- One loop-start call: the message -2 with the token. How it ends does not matter.
notify_loop_start : LuaCode → BridgeMod → ℕ → Option LuaSession → BridgeMod
notify_loop_start lua m token none = m
notify_loop_start lua m token (some s) =
    (call_lua lua m s (lua_integer (2 ^ 64 - 2) ∷ lua_integer token ∷ [])).0

notify_each : LuaCode → BridgeMod → List (ℕ × ℕ) → BridgeMod
notify_each lua m [] = m
notify_each lua m ((id, token) ∷ pending) =
    notify_each lua (notify_loop_start lua m token (live_session m id)) pending

unfoldable pub flush_loop_start : LuaCode → BridgeMod → BridgeMod
unfolding notify_each notify_loop_start
flush_loop_start lua m =
    let (sessions, pending) = flush_loop_start_callbacks m.lifetime.sessions in
    notify_each lua (record m { lifetime = record m.lifetime { sessions = sessions } }) pending

clock_of : (BridgeMod → ℕ) → Option BridgeMod → ℕ
clock_of clock none = 0
clock_of clock (some m) = clock m

-- The events of a pass; `start` is the reading that begins its budget.
unfoldable pub update_events : LuaCode → ℕ → (BridgeMod → ℕ) → ℕ → UpdateState → Option UpdateState
unfolding clock_of
update_events lua fuel clock start u = do
  flushed ← flush_delivery_faults lua fuel u.bridge
  fetched ← fetch_events flushed.backend u.pending_events
  pass ←
      dispatch_budgeted (consume_event lua fuel) (clock_of clock)
        (record { start = start; count = u.max_events_per_pass; time = u.max_dispatch_us })
        fetched.1.backlog (some (record flushed { backend = fetched.0 }))
  after ← pass.state
  some (record u {
    bridge = after;
    pending_events = record { backlog = pass.backlog; room = fetched.1.room };
  })

-- flush_debug_traces, whose loop is that of dispatch_budgeted with every turn counted.
unfoldable pub flush_debug_traces : LuaCode → (BridgeMod → ℕ) → ℕ → UpdateState → Option UpdateState
flush_debug_traces lua clock start u = do
  fetched ← fetch_traces u.bridge.backend u.pending_traces
  pass ←
      dispatch_budgeted (consume_trace lua) clock (record { start = start; count = 32; time = 250 })
        fetched.1.backlog (record u.bridge { backend = fetched.0 })
  some (record u {
    bridge = pass.state;
    pending_traces = record { backlog = pass.backlog; room = fetched.1.room };
  })

-- `now`, `start` and `trace_start` are the readings in front of the three parts; none is a flush of
-- faults without fuel.
unfoldable pub on_update :
    LuaCode → ℕ → (BridgeMod → ℕ) → ℕ → ℕ → ℕ → UpdateState → Option UpdateState
on_update lua fuel clock now start trace_start u =
    let started : UpdateState = record u { bridge = flush_loop_start lua u.bridge } in
    let (schedule, is_due) = due u.queue_schedule now in
    let scheduled : UpdateState = record started { queue_schedule = schedule } in
    if not is_due then some scheduled else do
      updated ← update_events lua fuel clock start scheduled
      flush_debug_traces lua clock trace_start updated
