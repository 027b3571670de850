-- ===== src/Backend/Inspect.antt =====
-- inspect_target of bridge/src/EnhancedInputBackend.cpp with bridge/include/BindingSnapshot.hpp. What
-- ReadProcessMemory yields stands in a record, none for a read that fails. The three addresses of a
-- live binding are those of fields of its native object, so they are read as one by its address.
pub mod Bounded
use ue4sslua_event_bridge.Base.{
  Bytes, text, to_string, lookup, ℕ, ◌+◌, ◌-◌, ◌%◌, ◌^◌, String, Bool, true, false, not, ◌&&◌, ◌||◌,
  Option, none, some, List, [], ◌∷◌, ◌++◌, ltb, leb, ◌==◌, if◌then◌else◌, nat_eq, is_some,
}
use ue4sslua_event_bridge.Backend.Engine.{
  TriggerEvent, is_negative, ObjectItem, ActionEventBindingArray, Engine, WeakObjectPtr, no_trigger,
  triggered, started, ongoing, canceled, completed,
}
use ue4sslua_event_bridge.Backend.State.{
  EnhancedInputSubscription, Target, LiveBinding, EnhancedInputBackend, has, available,
}
use ue4sslua_event_bridge.Backend.Unsubscribe.{find_subscription}

pub record TargetMemory : Type 0 where
  -- the object and serial number of an item of the object array, if the item is there
  pub read_item : ℕ → Option ObjectItem
  -- the binding array of a component, without its entries, and the entries at an address
  pub read_array : ℕ → Option ActionEventBindingArray
  pub read_entries : ℕ → ℕ → Option (List ℕ)
  -- the action, the event and the handle of a native binding; the event is its code
  pub read_metadata : ℕ → Option (WeakObjectPtr × ℕ × ℕ)

unfoldable pub snapshot_array_valid : ActionEventBindingArray → Bool
snapshot_array_valid a =
    not (is_negative a.size)
    && (not (is_negative a.capacity)
        && (leb a.size a.capacity
            && (ltb a.capacity 65536
                && (a.capacity == 0 || (not (a.address == 0) && a.address % 8 == 0)))))

unfoldable pub snapshot_contains : List ℕ → ℕ → Bool
snapshot_contains entries binding = not (binding == 0) && has binding entries

unfoldable pub snapshot_read_metadata : TargetMemory → Bool → ℕ → Option (WeakObjectPtr × ℕ × ℕ)
snapshot_read_metadata memory member binding = if member then memory.read_metadata binding else none

resolved_item : WeakObjectPtr → Option ObjectItem → ℕ
resolved_item weak none = 0
resolved_item weak (some item) = if item.serial == weak.object_serial_number then item.object else 0

-- The lambda `resolve`.
unfoldable pub resolve_weak : TargetMemory → WeakObjectPtr → ℕ
unfolding resolved_item
resolve_weak memory weak =
    if weak.object_serial_number == 0 || is_negative weak.object_index
    then 0
    else resolved_item weak (memory.read_item weak.object_index)

abbrev yes_no : Bool → Bytes
yes_no b = if b then text "1" else text "0"

-- operator<< of an int32_t
signed : ℕ → Bytes
signed n = if is_negative n then 45 ∷ to_string (2 ^ 32 - n) else to_string n

trigger_code : TriggerEvent → ℕ
trigger_code no_trigger = 0
trigger_code triggered = 1
trigger_code started = 2
trigger_code ongoing = 4
trigger_code canceled = 8
trigger_code completed = 16

-- Fields of a line, each a label with a value.
pub fields : List (String × Bytes) → Bytes
fields [] = []
fields ((label, value) ∷ rest) = text label ++ (value ++ fields rest)

same_weak : WeakObjectPtr → WeakObjectPtr → Bool
same_weak a b = a.object_index == b.object_index && a.object_serial_number == b.object_serial_number

metadata_fields :
    TargetMemory → EnhancedInputSubscription → LiveBinding → Option (WeakObjectPtr × ℕ × ℕ) → Bytes
metadata_fields memory sub live none = []
metadata_fields memory sub live (some (action, event, handle)) =
    let matches = same_weak action live.expected_action in
    fields (
      (" action_index=", signed action.object_index)
      ∷ (" action_serial=", signed action.object_serial_number)
      ∷ (
        " action_valid=",
        if matches
            then yes_no (not (resolve_weak memory live.expected_action == 0))
            else text "unknown",
      )
      ∷ (" action_matches=", yes_no matches)
      ∷ (" trigger=", to_string event)
      ∷ (" trigger_matches=", yes_no (event == trigger_code sub.phase))
      ∷ (" handle=", to_string handle)
      ∷ (" handle_matches=", yes_no (handle == live.expected_handle))
      ∷ [])

pub binding_line : TargetMemory → Option (List ℕ) → EnhancedInputSubscription → LiveBinding → Bytes
binding_line memory entries sub live =
    let member : Bool = elim entries [
      | none ↦ false
      | some list ↦ snapshot_contains list live.binding
    ] in
    let metadata = snapshot_read_metadata memory member live.binding in
    fields (
      ("binding subscription=", to_string sub.id)
      ∷ (" scope=", to_string sub.debug.scope_id)
      ∷ (" binding=", to_string sub.debug.binding_id)
      ∷ (" active=", yes_no sub.active)
      ∷ (" member=", yes_no member)
      ∷ (" metadata_readable=", yes_no (is_some metadata))
      ∷ (" expected_action_index=", signed live.expected_action.object_index)
      ∷ (" expected_action_serial=", signed live.expected_action.object_serial_number)
      ∷ (" expected_action_valid=", yes_no (not (resolve_weak memory live.expected_action == 0)))
      ∷ (" expected_trigger=", to_string (trigger_code sub.phase))
      ∷ (" expected_handle=", to_string live.expected_handle)
      ∷ [])
    ++ (metadata_fields memory sub live metadata ++ (10 ∷ []))

-- The lines of the bindings, how many there are, and whether some were left out.
pub record Lines : Type 0 where
  pub lines : Bytes
  pub count : ℕ
  pub truncated : Bool

-- The subscription of a live binding, if it is in the table and of this session and target.
pub concerned : ℕ → ℕ → Option EnhancedInputSubscription → Option EnhancedInputSubscription
concerned session target none = none
concerned session target (some sub) =
    if sub.target == target && sub.session == session then some sub else none

abbrev pub concerned_by :
    EnhancedInputBackend → ℕ → ℕ → LiveBinding → Option EnhancedInputSubscription
concerned_by b session target live =
    concerned session target (find_subscription b live.subscription)

pub put_line :
    (LiveBinding → EnhancedInputSubscription → Bytes)
    → LiveBinding
    → ℕ
    → (ℕ → Lines)
    → Option EnhancedInputSubscription
    → Lines
put_line line live count later none = later count
put_line line live count later (some sub) =
    let more = later (count + 1) in
    if count == 256
    then record { lines = []; count = count; truncated = true }
    else record more { lines = line live sub ++ more.lines }

-- The loop over the live bindings, from `count` lines on.
pub binding_lines :
    (LiveBinding → EnhancedInputSubscription → Bytes)
    → (LiveBinding → Option EnhancedInputSubscription)
    → ℕ
    → List LiveBinding
    → Lines
unfolding put_line
binding_lines line of_target count [] = record { lines = []; count = count; truncated = false }
binding_lines line of_target count (live ∷ rest) =
    put_line line live count (λ n. binding_lines line of_target n rest) (of_target live)

no_array : ActionEventBindingArray
no_array = record { address = 0; entries = []; size = 0; capacity = 0 }

or_no_array : Option ActionEventBindingArray → ActionEventBindingArray
or_no_array none = no_array
or_no_array (some a) = a

-- The entries, if the array is sound and they can be read.
readable_entries : TargetMemory → Bool → ActionEventBindingArray → Option (List ℕ)
readable_entries memory invariant array =
    if not invariant
    then none
    else if array.size == 0
    then some []
    else memory.read_entries array.address array.size

-- What is read of the target: its component, the array of the component, and whether it is sound.
target_array : TargetMemory → Target → Option ActionEventBindingArray
target_array memory found =
    let component = resolve_weak memory found.component in
    if component == 0 then none else memory.read_array component

array_sound : Option ActionEventBindingArray → Bool
array_sound array = is_some array && snapshot_array_valid (or_no_array array)

pub target_entries : TargetMemory → Target → Option (List ℕ)
target_entries memory found =
    let array = target_array memory found in
    readable_entries memory (array_sound array) (or_no_array array)

-- The first line.
pub snapshot_head : TargetMemory → ℕ → Target → List (String × Bytes)
snapshot_head memory target found =
    let array_read = target_array memory found in
    let array = or_no_array array_read in
    ("binding_snapshot schema=1 target=", to_string target)
    ∷ (" game_thread=1 component_valid=", yes_no (not (resolve_weak memory found.component == 0)))
    ∷ (" component_index=", signed found.component.object_index)
    ∷ (" component_serial=", signed found.component.object_serial_number)
    ∷ (" array_readable=", yes_no (is_some array_read))
    ∷ (" array_invariants=", yes_no (array_sound array_read))
    ∷ (" array_size=", signed array.size)
    ∷ (" array_capacity=", signed array.capacity)
    ∷ (" entries_readable=", yes_no (is_some (target_entries memory found)))
    ∷ ("", 10 ∷ [])
    ∷ []

-- The last line.
pub snapshot_end : ℕ → Bool → List (String × Bytes)
snapshot_end count truncated =
    ("snapshot_end reported=", to_string count)
    ∷ (" truncated=", yes_no truncated)
    ∷ ("", 10 ∷ [])
    ∷ []

pub snapshot : TargetMemory → EnhancedInputBackend → ℕ → ℕ → Target → Bytes
snapshot memory b session target found =
    let body =
      binding_lines (λ live sub. binding_line memory (target_entries memory found) sub live)
        (concerned_by b session target) 0 b.bindings.items in
    fields (snapshot_head memory target found)
    ++ (body.lines ++ fields (snapshot_end body.count body.truncated))

pub inspect_found : TargetMemory → EnhancedInputBackend → ℕ → ℕ → Option Target → Bytes × Bytes
inspect_found memory b session target none =
    ([], text "Enhanced Input target is unknown, stopped, or belongs to another Lua session")
inspect_found memory b session target (some found) =
    if not (found.session == session) || has session b.inactive_sessions
    then ([], text "Enhanced Input target is unknown, stopped, or belongs to another Lua session")
    else (snapshot memory b session target found, [])

-- The snapshot and the error; it changes nothing.
unfoldable pub inspect_target : Engine → TargetMemory → EnhancedInputBackend → ℕ → ℕ → Bytes × Bytes
unfolding inspect_found snapshot snapshot_head snapshot_end target_entries target_array array_sound
    readable_entries or_no_array no_array binding_lines binding_line metadata_fields same_weak
    fields trigger_code signed
inspect_target e memory b session target =
    if not e.in_game_thread
    then ([], text "InspectInputComponent must run on the Unreal game thread")
    else if not (available b)
    then ([], text "Enhanced Input backend is not initialized")
    else inspect_found memory b session target (lookup target b.targets)
