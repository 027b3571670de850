-- ===== src/Backend/Native.antt =====
-- attach and detach of bridge/src/EnhancedInputBackend.cpp, and the constructor, the destructor and
-- Clone of NativeBinding: the bridge's entries in the binding array of an Unreal component.
use ue4sslua_event_bridge.Base.{
  length, take, drop, insert, erase, ℕ, zero, suc, ◌+◌, ◌-◌, ◌/◌, ◌%◌, ◌^◌, ◌≤◌, ◌<◌, min, max, ◌≡◌,
  refl, sym, ap, ◌∙◌, true, false, not, ◌||◌, Option, none, some, List, [], ◌∷◌, ◌++◌, arith, leb,
  ◌==◌, if◌then◌else◌, nat_eq,
}
use ue4sslua_event_bridge.Backend.Engine.{
  ActionEventBindingArray, Engine, assign, get, array_is_valid, validate_component, allocate,
  put_array,
}
use ue4sslua_event_bridge.Backend.State.{
  EnhancedInputSubscription, LiveBinding, NativeBinding, EnhancedInputBackend, has, put_dispatch,
}

unfoldable pub make_native : EnhancedInputBackend → ℕ → NativeBinding → EnhancedInputBackend
make_native b memory native = record b {
  native_store = insert memory native b.native_store;
  dispatch = record b.dispatch { live_bindings = (b.dispatch.live_bindings + 1) % 2 ^ 64 };
}

unfoldable pub delete_native : EnhancedInputBackend → ℕ → EnhancedInputBackend
delete_native b memory = record b {
  native_store = erase memory b.native_store;
  dispatch = record b.dispatch {
    live_bindings = (b.dispatch.live_bindings + (2 ^ 64 - 1)) % 2 ^ 64;
  };
}

-- The capacity that a full array asks for.
unfoldable pub new_capacity : ℕ → ℕ
new_capacity capacity = min (if capacity == 0 then 4 else capacity + max 4 (capacity / 2)) 65535

-- Room for one more entry: the engine, and the array, if there is room.
unfoldable pub make_room :
    Engine → ActionEventBindingArray → Engine × Option ActionEventBindingArray
make_room e array =
    if array.size == array.capacity
    then (if leb 65535 array.capacity
        then (e, none)
        else let (resized, e') = allocate e in
          if resized == 0 then (e', none) else (
            e',
            some (record array { address = resized; capacity = new_capacity array.capacity }),
          ))
    else (e, some array)

-- `array->data[array->size++] = binding`
unfoldable pub push_entry : ActionEventBindingArray → ℕ → ActionEventBindingArray
push_entry array binding = record array {
  entries = take array.size array.entries ++ (binding ∷ drop (array.size + 1) array.entries);
  size = array.size + 1;
}

place :
    Engine
    → EnhancedInputBackend
    → ℕ
    → ℕ
    → EnhancedInputSubscription
    → ActionEventBindingArray
    → Engine × EnhancedInputBackend × ℕ
place e b component action subscription array =
    let (memory, e') = allocate (put_array e component array) in
    if memory == 0
    then (e', b, 0)
    else let native : NativeBinding = record {
      action = assign e' action;
      event = subscription.phase;
      handle = b.next_binding_handle;
      owner = subscription.id;
    } in
      let made =
        make_native (record b { next_binding_handle = (b.next_binding_handle + 1) % 2 ^ 32 }) memory
          native in
      if get e' native.action == action
      then (put_array e' component (push_entry array memory), made, memory)
      else (e', delete_native made memory, 0)

attach_in :
    EnhancedInputBackend
    → ℕ
    → ℕ
    → EnhancedInputSubscription
    → Engine × Option ActionEventBindingArray
    → Engine × EnhancedInputBackend × ℕ
attach_in b component action subscription (e, none) = (e, b, 0)
attach_in b component action subscription (e, some array) =
    place e b component action subscription array

-- The engine, the backend and the binding, or 0.
unfoldable pub attach :
    Engine
    → EnhancedInputBackend
    → ℕ
    → ℕ
    → EnhancedInputSubscription
    → Engine × EnhancedInputBackend × ℕ
unfolding attach_in place
attach e b component action subscription =
    if not (validate_component e component) || action == 0
    then (e, b, 0)
    else attach_in b component action subscription (make_room e (e.binding_array component))

-- The entries below `size` without the first that is the binding, if there is one.
unfoldable pub remove_entry : ℕ → ℕ → List ℕ → Option (List ℕ)
remove_entry zero binding entries = none
remove_entry (suc n) binding [] = none
remove_entry (suc n) binding (entry ∷ entries) =
    if entry == binding
    then some entries
    else elim (remove_entry n binding entries) [ none ↦ none | some rest ↦ some (entry ∷ rest) ]

detach_in : Engine → EnhancedInputBackend → ℕ → ℕ → Option (List ℕ) → Engine × EnhancedInputBackend
detach_in e b component binding none = (e, b)
detach_in e b component binding (some entries) =
    let array = e.binding_array component in
    (
      put_array e component (record array { entries = entries; size = array.size - 1 }),
      delete_native b binding,
    )

unfoldable pub detach : Engine → EnhancedInputBackend → LiveBinding → Engine × EnhancedInputBackend
unfolding detach_in
detach e b live =
    let component = get e live.component in
    if not (validate_component e component)
    then (e, b)
    else let array = e.binding_array component in
      detach_in e b component live.binding (remove_entry array.size live.binding array.entries)

unfoldable pub clone :
    Engine → EnhancedInputBackend → NativeBinding → Engine × EnhancedInputBackend × ℕ
clone e b native =
    let marked = put_dispatch b (record b.dispatch { clone_created = true }) in
    let (memory, e') = allocate e in
    if memory == 0 then (e', marked, 0) else (
      e',
      make_native marked memory (record native { action = assign e' (get e' native.action) }),
      memory,
    )

-- A full array grows by at least one entry and at most to 65535.
pub new_capacity_lem :
    (capacity : ℕ)
    → capacity < 65535
    → (capacity < new_capacity capacity) × (new_capacity capacity ≤ 65535)
unfolding new_capacity
new_capacity_lem capacity small = ground (arith, small)

-- What was put behind `size` entries that are other bindings is what is removed, and nothing else.
remove_entry-append :
    (binding : ℕ) (entries : List ℕ)
    → has binding entries ≡ false
    → remove_entry (length entries + 1) binding (entries ++ (binding ∷ [])) ≡ some entries
unfolding remove_entry
remove_entry-append binding [] fresh = ground arith
remove_entry-append binding (entry ∷ entries) fresh =
    ground (arith, remove_entry-append binding entries)

take-length : (xs : List ℕ) → take (length xs) xs ≡ xs
take-length [] = refl
take-length (x ∷ xs) = ap (λ ys. x ∷ ys) (take-length xs)

drop_past : (n : ℕ) (xs : List ℕ) → length xs ≤ n → drop n xs ≡ []
drop_past zero [] h = refl
drop_past zero (x ∷ xs) h = absurd (omega (arith, h))
drop_past (suc n) [] h = refl
drop_past (suc n) (x ∷ xs) h = drop_past n xs (omega (arith, h))

-- A binding that was put into a component's array, where it was not before, is the entry that
-- `detach` takes out again: the entries are those from before, in their order.
pub remove_entry-push_entry :
    (array : ActionEventBindingArray) (binding : ℕ)
    → length array.entries ≡ array.size
    → has binding array.entries ≡ false
    → let pushed = push_entry array binding in
      (pushed.size ≡ array.size + 1)
      × (remove_entry pushed.size binding pushed.entries ≡ some array.entries)
unfolding push_entry
remove_entry-push_entry array binding sized fresh =
    let entries : (take array.size array.entries ++ (binding ∷ drop (array.size + 1) array.entries))
        ≡ (array.entries ++ (binding ∷ [])) =
      ap (λ (n : ℕ). take n array.entries ++ (binding ∷ drop (array.size + 1) array.entries))
        (sym sized)
      ∙ ap (λ t. t ++ (binding ∷ drop (array.size + 1) array.entries)) (take-length array.entries)
      ∙ ap (λ t. array.entries ++ (binding ∷ t))
          (drop_past (array.size + 1) array.entries (omega (arith, sized))) in
    (
      refl,
      ap (remove_entry (array.size + 1) binding) entries
          ∙ ap (λ (n : ℕ). remove_entry (n + 1) binding (array.entries ++ (binding ∷ [])))
              (sym sized)
          ∙ remove_entry-append binding array.entries fresh,
    )

-- An array within its bounds that gets room stays within them, if what the allocator returns is
-- aligned to eight bytes.
pub array_is_valid-make_room :
    (e : Engine) (array room : ActionEventBindingArray)
    → ((n : ℕ) → e.allocations n % 8 ≡ 0)
    → array_is_valid array ≡ true
    → (make_room e array).1 ≡ some room
    → (array_is_valid room ≡ true) × (room.size < room.capacity) × (room.size ≡ array.size)
unfolding make_room array_is_valid new_capacity allocate
array_is_valid-make_room e array room aligned valid made =
    ground (arith, aligned e.allocation_count, valid, made)
