-- ===== src/Backend/Engine.antt =====
-- What the backend reads of Unreal, which is not part of the repository, and the code that reads it:
-- FWeakObjectPtr of bridge/include/UE4SSABI.hpp, the array of native bindings of
-- bridge/include/EnhancedInputABI.hpp, validate_component and the two resolvers of
-- bridge/src/EnhancedInputBackend.cpp. A pointer is a number and 0 is null; an int32_t is its
-- 32-bit pattern. The sizes are those without UE4SSLEB_COMPONENT_LAYOUT_128.
use ue4sslua_event_bridge.Base.{
  Bytes, bytes_beq, ℕ, ◌+◌, ◌%◌, ◌^◌, String, ◌≡◌, ◌⊎◌, Bool, false, not, ◌&&◌, ◌||◌, Option, none,
  some, List, [], ◌∷◌, arith, ltb, leb, ◌==◌, if◌then◌else◌,
}

pub data TriggerEvent : Type 0 where
  no_trigger triggered started ongoing canceled completed : TriggerEvent

pub data ValueType : Type 0 where
  boolean axis_1d axis_2d axis_3d : ValueType

-- A signed 32-bit pattern below zero.
abbrev pub is_negative : ℕ → Bool
is_negative n = leb (2 ^ 31) n

pub record ObjectItem : Type 0 where
  pub object : ℕ
  pub serial : ℕ

pub record ActionEventBindingArray : Type 0 where
  -- the pointer `data`, and the entries that it leads to
  pub address : ℕ
  pub entries : List ℕ
  pub size : ℕ
  pub capacity : ℕ

pub record Engine : Type 0 where
  pub in_game_thread : Bool
  pub thread_id : ℕ
  -- FUObjectArray::IndexToObject and the item that it leads to
  pub index_to_object : ℕ → Option ObjectItem
  -- the int32 at UObject + 0x0C
  pub internal_index : ℕ → ℕ
  -- FindAllOf, GetPathName and GetPropertiesSize of the object's class, if it has one
  pub find_all_of : String → List ℕ
  pub path_name : ℕ → Bytes
  pub properties_size : ℕ → Option ℕ
  -- the binding array of each component
  pub binding_array : ℕ → ActionEventBindingArray
  -- the results of FMemory::Malloc and FMemory::Realloc, the next one first; 0 is a failure
  pub allocations : ℕ → ℕ
  pub allocation_count : ℕ
  -- std::vector<LiveBinding>::max_size()
  pub bindings_max_size : ℕ

pub record WeakObjectPtr : Type 0 where
  pub object_index : ℕ
  pub object_serial_number : ℕ

abbrev pub null_weak : WeakObjectPtr
null_weak = record { object_index = 0; object_serial_number = 0 }

abbrev positive : ℕ → Bool
positive serial = not (serial == 0) && not (is_negative serial)

assign_item : ℕ → ℕ → Option ObjectItem → WeakObjectPtr
assign_item object index none = null_weak
assign_item object index (some item) =
    if item.object == object && positive item.serial
    then record { object_index = index; object_serial_number = item.serial }
    else null_weak

-- FWeakObjectPtr::assign
unfoldable pub assign : Engine → ℕ → WeakObjectPtr
unfolding assign_item
assign e object =
    if object == 0
    then null_weak
    else let index = e.internal_index object in
      if is_negative index then null_weak else assign_item object index (e.index_to_object index)

get_item : WeakObjectPtr → Option ObjectItem → ℕ
get_item weak none = 0
get_item weak (some item) = if item.serial == weak.object_serial_number then item.object else 0

-- FWeakObjectPtr::Get
unfoldable pub get : Engine → WeakObjectPtr → ℕ
unfolding get_item
get e weak =
    if weak.object_serial_number == 0 || is_negative weak.object_index
    then 0
    else get_item weak (e.index_to_object weak.object_index)

abbrev pub enhanced_input_component_size : ℕ
enhanced_input_component_size = 0x178

-- `bindings->capacity == 0 || data` is aligned and not null, and the int32 bounds of the array
unfoldable pub array_is_valid : ActionEventBindingArray → Bool
array_is_valid a =
    not (is_negative a.size)
    && (not (is_negative a.capacity)
        && (leb a.size a.capacity
            && (ltb a.capacity 65536
                && (a.capacity == 0 || (not (a.address == 0) && a.address % 8 == 0)))))

has_size : Option ℕ → Bool
has_size none = false
has_size (some n) = n == enhanced_input_component_size

unfoldable pub validate_component : Engine → ℕ → Bool
unfolding array_is_valid has_size
validate_component e component =
    not (component == 0)
    && (has_size (e.properties_size component) && array_is_valid (e.binding_array component))

pub data Resolved : Type 0 where
  -- found, not found (null with no error), and found with a layout that is refused
  resolved : ℕ → Resolved
  missing : Resolved
  mismatched : ℕ → Resolved

-- find_exact of resolve_component
find_exact : Engine → Bytes → List ℕ → Resolved
find_exact e path [] = missing
find_exact e path (object ∷ rest) =
    if not (object == 0) && bytes_beq (e.path_name object) path
    then (if validate_component e object then resolved object else mismatched object)
    else find_exact e path rest

or_else : Resolved → Resolved → Resolved
or_else (resolved c) second = resolved c
or_else missing second = second
or_else (mismatched c) (resolved d) = resolved d
or_else (mismatched c) missing = mismatched c
or_else (mismatched c) (mismatched d) = mismatched d

-- A refused layout of the first class leaves its error, and the second class is still searched.
unfoldable pub resolve_component : Engine → Bytes → Resolved
unfolding find_exact or_else
resolve_component e path =
    or_else (find_exact e path (e.find_all_of "EnhancedInputComponent"))
      (find_exact e path (e.find_all_of "InputComponent"))

find_action : Engine → Bytes → List ℕ → ℕ
find_action e path [] = 0
find_action e path (action ∷ rest) =
    if not (action == 0) && bytes_beq (e.path_name action) path
    then action
    else find_action e path rest

unfoldable pub resolve_action : Engine → Bytes → ℕ
unfolding find_action
resolve_action e path = find_action e path (e.find_all_of "InputAction")

-- One allocation: the pointer, and the engine after it.
unfoldable pub allocate : Engine → ℕ × Engine
allocate e =
    (e.allocations e.allocation_count, record e { allocation_count = e.allocation_count + 1 })

-- A write to the binding array of a component.
unfoldable pub put_array : Engine → ℕ → ActionEventBindingArray → Engine
put_array e component array = record e {
  binding_array = λ c. if component == c then array else e.binding_array c;
}

-- A reference that `assign` filled leads back to its object, and one that it left null to nothing.
pub get-assign :
    (e : Engine) (object : ℕ)
    → (assign e object ≡ null_weak × get e (assign e object) ≡ 0)
      ⊎ (get e (assign e object) ≡ object)
unfolding assign get
get-assign e object = ground arith
