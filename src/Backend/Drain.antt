-- ===== src/Backend/Drain.antt =====
-- take_events, take_traces, recycle_events, recycle_traces, set_queue_limit, queue_stats and shutdown
-- of bridge/src/EnhancedInputBackend.cpp: what the consumer calls.
pub mod Shutdown
use ue4sslua_event_bridge.Base.{
  length, is_nil, ℕ, Bool, false, not, ◌&&◌, ◌||◌, List, [], ◌∷◌, ◌==◌, if◌then◌else◌,
}
use ue4sslua_event_bridge.Queue.Buffers.{
  drained, remaining, total, Buffer, no_buffer, clear, drain_queue, retain_empty_buffer,
}
use ue4sslua_event_bridge.Backend.Engine.{Engine}
use ue4sslua_event_bridge.Backend.State.{
  EnhancedInputEvent, EnhancedInputTrace, LiveBinding, EnhancedInputBackend, put_dispatch,
  set_inactive,
}
use ue4sslua_event_bridge.Backend.Native.{detach}

unfoldable pub take_events : EnhancedInputBackend → EnhancedInputBackend × Buffer EnhancedInputEvent
take_events b =
    if not b.dispatch.events_ready.pending
    then (b, no_buffer)
    else let (batch, events, spare) = drain_queue b.dispatch.events b.dispatch.spare_events in
      (
        put_dispatch b (record b.dispatch {
          events = events;
          spare_events = spare;
          consumer_backlog = remaining b.dispatch.consumer_backlog (length batch.items);
          events_ready = drained b.dispatch.events_ready;
        }),
        batch,
      )

unfoldable pub take_traces : EnhancedInputBackend → EnhancedInputBackend × Buffer EnhancedInputTrace
take_traces b =
    if not b.dispatch.traces_ready.pending
    then (b, no_buffer)
    else let (batch, traces, spare) = drain_queue b.dispatch.traces b.dispatch.spare_traces in
      (
        put_dispatch b (record b.dispatch {
          traces = traces;
          spare_traces = spare;
          traces_ready = drained b.dispatch.traces_ready;
        }),
        batch,
      )

unfoldable pub recycle_events :
    EnhancedInputBackend → Buffer EnhancedInputEvent → EnhancedInputBackend
recycle_events b batch =
    if batch.room == 0
    then b
    else let (spare, rest) = retain_empty_buffer b.dispatch.spare_events (clear batch) in
      put_dispatch b (record b.dispatch { spare_events = spare })

unfoldable pub recycle_traces :
    EnhancedInputBackend → Buffer EnhancedInputTrace → EnhancedInputBackend
recycle_traces b batch =
    if batch.room == 0
    then b
    else let (spare, rest) = retain_empty_buffer b.dispatch.spare_traces (clear batch) in
      put_dispatch b (record b.dispatch { spare_traces = spare })

unfoldable pub set_queue_limit : EnhancedInputBackend → ℕ → EnhancedInputBackend
set_queue_limit b limit =
    put_dispatch b
      (record b.dispatch { event_capacity = record b.dispatch.event_capacity { limit = limit } })

pub record QueueStats : Type 0 where
  pub depth : ℕ
  pub high_water : ℕ
  pub rejected : ℕ
  pub debug_rejected : ℕ

unfoldable pub queue_stats : EnhancedInputBackend → QueueStats
queue_stats b = record {
  depth = total b.dispatch.consumer_backlog (length b.dispatch.events.items);
  high_water = b.dispatch.event_capacity.high_water;
  rejected = b.dispatch.event_capacity.rejected;
  debug_rejected = b.dispatch.trace_capacity.rejected;
}

pub deactivate_ids : EnhancedInputBackend → List ℕ → EnhancedInputBackend
deactivate_ids b [] = b
deactivate_ids b (id ∷ ids) = deactivate_ids (set_inactive b id) ids

pub detach_each : Engine → EnhancedInputBackend → List LiveBinding → Engine × EnhancedInputBackend
detach_each e b [] = (e, b)
detach_each e b (live ∷ rest) = let (e', b') = detach e b live in detach_each e' b' rest

pub clear_all : EnhancedInputBackend → EnhancedInputBackend
clear_all b = record b {
  bindings = clear b.bindings;
  subscriptions = [];
  targets = [];
  inactive_sessions = [];
  dispatch = record b.dispatch {
    events = clear b.dispatch.events;
    traces = clear b.dispatch.traces;
    events_ready = drained b.dispatch.events_ready;
    traces_ready = drained b.dispatch.traces_ready;
  };
}

-- The result is whether no native object is left that can call back into the module.
unfoldable pub shutdown : Engine → EnhancedInputBackend → Engine × EnhancedInputBackend × Bool
unfolding deactivate_ids detach_each clear_all
shutdown e b =
    if not b.initialized
    then (e, b, b.dispatch.live_bindings == 0)
    else let stopped : EnhancedInputBackend = record b {
      initialized = false;
      dispatch = record b.dispatch { accepting = false };
    } in
      let requires_module_pin =
        not e.in_game_thread && (not (is_nil b.bindings.items) || b.dispatch.clone_created) in
      let inactive = deactivate_ids stopped b.subscriptions in
      let (e', b') =
        if e.in_game_thread then detach_each e inactive b.bindings.items else (e, inactive) in
      let final = clear_all b' in
      (e', final, not requires_module_pin && final.dispatch.live_bindings == 0)

-- The number of events that the consumer still holds, for the statistics.
unfoldable pub consumer_events_remaining : EnhancedInputBackend → ℕ → EnhancedInputBackend
consumer_events_remaining b count =
    put_dispatch b
      (record b.dispatch { consumer_backlog = remaining b.dispatch.consumer_backlog count })
