-- ===== src/Callbacks.antt =====
-- CallbackRegistry (libs/jsRuntime/include/CppBridge/CallbackRegistry.h, src/CppBridge/CallbackRegistry.cc):
-- what C++ registers for V8. A pointer is a number, the null pointer is 0, and a holder is the number of
-- its callback.
pub mod References
pub mod Infos
mod Tests
use v8app.Base.{
  ℕ, ◌≡◌, Bool, true, false, not, ◌&&◌, ◌||◌, Option, none, some, List, [], ◌∷◌, ◌++◌, ◌==◌,
  if◌then◌else◌, codes, list_eq, find, place,
}
use v8app.Versions.{is_empty}

abbrev pub Setups : Type 0
Setups = List (List ℕ × List ℕ)

pub record V8CppObjInfo : Type 0 where
  pub address : ℕ
  pub type_name : List ℕ

abbrev pub Infos : Type 0
Infos = List (List ℕ × V8CppObjInfo)

pub record CallbackRegistry : Type 0 where
  pub registry : List ℕ
  pub callback_holders : List (ℕ × ℕ)
  pub register_functions : Setups
  pub object_infos : Infos

unfoldable pub new_registry : CallbackRegistry
new_registry = record {
  registry = [];
  callback_holders = [];
  register_functions = [];
  object_infos = [];
}

-- The vector is not empty, and its last element is null.
unfoldable pub ends_with_null : List ℕ → Bool
ends_with_null [] = false
ends_with_null (a ∷ []) = a == 0
ends_with_null (a ∷ b ∷ rest) = ends_with_null (b ∷ rest)

unfoldable pub pop_back : List ℕ → List ℕ
pop_back [] = []
pop_back (a ∷ []) = []
pop_back (a ∷ b ∷ rest) = a ∷ pop_back (b ∷ rest)

unfoldable pub contains : ℕ → List ℕ → Bool
contains a [] = false
contains a (b ∷ rest) = b == a || contains a rest

-- `GetReferences`: the references and the registry are one vector.
unfoldable pub get_references : List ℕ → List ℕ
unfolding ends_with_null
get_references r = if not (ends_with_null r) then r ++ (0 ∷ []) else r

abbrev pub without_null : List ℕ → List ℕ
without_null r = if ends_with_null r then pop_back r else r

unfoldable pub add_reference : ℕ → List ℕ → List ℕ
unfolding contains
add_reference a r = if contains a r then r else r ++ (a ∷ [])

unfoldable pub find_holder : ℕ → List (ℕ × ℕ) → Option ℕ
find_holder a [] = none
find_holder a ((b, holder) ∷ rest) = if b == a then some holder else find_holder a rest

-- `Register`: `real` is the address of the function, `dispatcher` that of the callback for V8.
unfoldable pub register : ℕ → ℕ → ℕ → CallbackRegistry → CallbackRegistry
unfolding ends_with_null pop_back add_reference find_holder
register real dispatcher holder s = record s {
  registry = add_reference dispatcher (without_null s.registry);
  callback_holders = elim (find_holder real s.callback_holders) [
    | none ↦ (real, holder) ∷ s.callback_holders
    | some old ↦ s.callback_holders
  ];
}

-- The functions of a namespace, none if it has no entry.
unfoldable pub functions_of : List ℕ → Setups → List ℕ
functions_of name setups = elim (find name setups) [ none ↦ [] | some functions ↦ functions ]

unfoldable pub append_function : ℕ → List ℕ → Setups → Setups
append_function function name [] = (name, function ∷ []) ∷ []
append_function function name ((n, fs) ∷ setups) =
    if list_eq n name
    then (n, fs ++ (function ∷ [])) ∷ setups
    else (n, fs) ∷ append_function function name setups

unfoldable add_to_each : ℕ → List (List ℕ) → Setups → Setups
unfolding append_function
add_to_each function [] setups = setups
add_to_each function (name ∷ names) setups =
    add_to_each function names (append_function function name setups)

-- `AddNamespaceSetupFunction`
unfoldable pub add_namespace_setup_function : ℕ → List (List ℕ) → Setups → Setups
unfolding add_to_each
add_namespace_setup_function function [] setups = add_to_each function (codes "global" ∷ []) setups
add_namespace_setup_function function (name ∷ names) setups =
    add_to_each function (name ∷ names) setups

-- `RunNamespaceSetupFunctions`: the functions that are called, in order.
unfoldable pub run_namespace_setup_functions : List ℕ → Setups → List ℕ
unfolding functions_of
run_namespace_setup_functions name setups =
    let global = functions_of (codes "global") setups in
    if not (list_eq name (codes "global")) && not (is_empty name)
    then global ++ functions_of name setups
    else global

unfoldable pub has_info : ℕ → Infos → Bool
has_info address [] = false
has_info address ((name, info) ∷ rest) = info.address == address || has_info address rest

-- `RegisterObjectInfo`
unfoldable pub register_object_info : V8CppObjInfo → Infos → Infos
unfolding has_info
register_object_info info infos =
    if has_info (info.address) infos then infos else elim (find (info.type_name) infos) [
      | some other ↦ infos
      | none ↦ place (info.type_name) info infos
    ]

-- `GetNativeObjectInfoFromTypeName`
abbrev pub get_native_object_info : List ℕ → Infos → Option V8CppObjInfo
get_native_object_info name infos = find name infos
