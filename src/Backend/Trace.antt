-- ===== src/Backend/Trace.antt =====
-- write_debug_trace and append_debug_text of bridge/src/EnhancedInputBackend.cpp. The call of
-- OutputDebugStringA is left out: it changes nothing that the bridge reads. Its `catch` for a failed
-- allocation is left out too.
use ue4sslua_event_bridge.Base.{
  length, All, Bytes, text, to_string, ℕ, ◌≤◌, ◌≡◌, not, ◌||◌, [], ◌∷◌, ◌++◌, arith, leb, ◌==◌,
  if◌then◌else◌,
}
use ue4sslua_event_bridge.Queue.Capacity.{admit, accepted}
use ue4sslua_event_bridge.Queue.Buffers.{publish, push_back}
use ue4sslua_event_bridge.Backend.Engine.{Engine}
use ue4sslua_event_bridge.Backend.State.{
  EnhancedInputDebugInfo, EnhancedInputDispatchState, EnhancedInputBackend, put_dispatch,
}

escape_text : Bytes → Bytes
escape_text [] = []
escape_text (c ∷ s) =
    let shown : Bytes = (if leb 0x20 c then c else 63) ∷ [] in
    (if c == 92 || c == 34 then 92 ∷ shown else shown) ++ escape_text s

-- What `append_debug_text` appends.
unfoldable pub debug_text : Bytes → Bytes
unfolding escape_text
debug_text [] = 34 ∷ 45 ∷ 34 ∷ []
debug_text (c ∷ s) = 34 ∷ (escape_text (c ∷ s) ++ (34 ∷ []))

unfoldable pub trace_line : Engine → EnhancedInputDebugInfo → Bytes → Bytes → ℕ → Bytes → Bytes
unfolding debug_text
trace_line e debug stage phase sequence reason =
    text "[UE4SSLuaEventBridge][trace] label="
    ++ (debug_text debug.label
        ++ (text " stage="
            ++ (debug_text stage
                ++ (text " scope="
                    ++ (to_string debug.scope_id
                        ++ (text " binding="
                            ++ (to_string debug.binding_id
                                ++ (text " key="
                                    ++ (debug_text debug.key
                                        ++ (text " trigger="
                                            ++ (debug_text debug.trigger_name
                                                ++ (text " phase="
                                                    ++ (debug_text phase
                                                        ++ (text " event_seq="
                                                            ++ (to_string sequence
                                                            ++ (text " thread_id="
                                                            ++ (to_string e.thread_id
                                                            ++ (text " game_thread="
                                                            ++ ((if e.in_game_thread
                                                            then text "true"
                                                            else text "false")
                                                            ++ (text " reason="
                                                            ++ (debug_text reason
                                                            ++ (10 ∷ []))))))))))))))))))))))

-- The locked part: one more trace, if the trace queue admits it.
unfoldable pub push_trace : EnhancedInputDispatchState → ℕ → Bytes → EnhancedInputDispatchState
push_trace d session line =
    let (capacity, admitted) = admit d.trace_capacity (length d.traces.items) in
    if admitted
    then (let traces = push_back d.traces (record { session = session; line = line }) in
        record d {
          traces = traces;
          trace_capacity = accepted capacity (length traces.items);
          traces_ready = publish d.traces_ready;
        })
    else record d { trace_capacity = capacity }

unfoldable pub write_debug_trace :
    Engine
    → EnhancedInputBackend
    → ℕ
    → EnhancedInputDebugInfo
    → Bytes
    → Bytes
    → ℕ
    → Bytes
    → EnhancedInputBackend
write_debug_trace e b session debug stage phase sequence reason =
    if not debug.enabled || (session == 0 || not b.dispatch.accepting)
    then b
    else put_dispatch b
        (push_trace b.dispatch session (trace_line e debug stage phase sequence reason))

-- Everything that a trace record leaves alone.
pub record KeepsInput (b b' : EnhancedInputBackend) : Type 0 where
  pub initialized : b'.initialized ≡ b.initialized
  pub targets : b'.targets ≡ b.targets
  pub subscriptions : b'.subscriptions ≡ b.subscriptions
  pub inactive_sessions : b'.inactive_sessions ≡ b.inactive_sessions
  pub bindings : b'.bindings ≡ b.bindings
  pub subscription_store : b'.subscription_store ≡ b.subscription_store
  pub delivery_store : b'.delivery_store ≡ b.delivery_store
  pub native_store : b'.native_store ≡ b.native_store
  pub accepting : b'.dispatch.accepting ≡ b.dispatch.accepting
  pub events : b'.dispatch.events ≡ b.dispatch.events
  pub events_ready : b'.dispatch.events_ready ≡ b.dispatch.events_ready
  pub event_capacity : b'.dispatch.event_capacity ≡ b.dispatch.event_capacity
  pub faults_pending : b'.dispatch.faults_pending ≡ b.dispatch.faults_pending
  pub live_bindings : b'.dispatch.live_bindings ≡ b.dispatch.live_bindings

-- A trace record changes nothing but the trace queue, whatever its arguments.
pub write_debug_trace-KeepsInput :
    (e : Engine) (b : EnhancedInputBackend) (session : ℕ) (debug : EnhancedInputDebugInfo)
    (stage phase : Bytes) (sequence : ℕ) (reason : Bytes)
    → KeepsInput b (write_debug_trace e b session debug stage phase sequence reason)
unfolding write_debug_trace push_trace put_dispatch
write_debug_trace-KeepsInput e b session debug stage phase sequence reason = ground arith

-- No control byte.
abbrev pub IsPrintable : Bytes → Type 0
IsPrintable s = All (λ c. 0x20 ≤ c) s

IsPrintable-append : (s t : Bytes) → IsPrintable s → IsPrintable t → IsPrintable (s ++ t)
IsPrintable-append [] t a b = b
IsPrintable-append (c ∷ s) t a b = (a.0, IsPrintable-append s t a.1 b)

escape_text-IsPrintable : (s : Bytes) → IsPrintable (escape_text s)
unfolding escape_text
escape_text-IsPrintable [] = tt
escape_text-IsPrintable (c ∷ s) = ground (arith, escape_text-IsPrintable s)

-- A printed text holds no control byte, whatever the text is.
pub debug_text-IsPrintable : (s : Bytes) → IsPrintable (debug_text s)
unfolding debug_text
debug_text-IsPrintable [] = omega arith
debug_text-IsPrintable (c ∷ s) = (
  omega arith,
  IsPrintable-append (escape_text (c ∷ s)) (34 ∷ []) (escape_text-IsPrintable (c ∷ s))
      (omega arith),
)
