-- ===== src/Modules/Context.antt =====
-- JSContextModules.cc: the operations on the map of a context's modules, beside the loading of a module's
-- imports. `hash` is V8's identity hash of a module, and the isolate of the context is there.
use v8app.Base.{
  ℕ, Bool, true, false, ◌||◌, Option, none, some, List, [], ◌∷◌, ◌==◌, ◌>>=◌, if◌then◌else◌,
  list_eq, codes, extension, remove_filename,
}
use v8app.Modules.{JsModuleType, JsModuleAttributesInfo, new_attributes_info, type_eq}
use v8app.Modules.Attributes.{get_module_attributes_info}
use v8app.Modules.Info.{new_module_info, restore_v8_module}
use v8app.Modules.Wire.{SnapshotData}
use v8app.Modules.Table.{insert, get_module_by_specifier}
use v8app.Modules.Tree.{Info, Map, Host, Request, Load, null, loaded, key_of, load_module_tree}

-- The type that `LoadModule` takes a file for.
unfoldable pub type_of_extension : List ℕ → Option JsModuleType
type_of_extension ext =
    if list_eq ext (codes ".js") || list_eq ext (codes ".mjs")
    then some JsModuleType.javascript
    else if list_eq ext (codes ".vbin")
    then some JsModuleType.native
    else if list_eq ext (codes ".json")
    then some JsModuleType.json
    else none

module _ (host : Host) (build : JsModuleAttributesInfo → List ℕ → List ℕ → Option Info) where
  unfoldable pub load_unless_cached : ℕ → List ℕ → Map → Option Info → Load Info × Map
  load_unless_cached fuel path m none = (null, m)
  load_unless_cached fuel path m (some info) = elim (get_module_by_specifier path m) [
    | some cached ↦ (loaded cached, m)
    | none ↦ load_module_tree host build fuel m info
  ]

  unfoldable pub load_typed : ℕ → List ℕ → List ℕ → Map → Option JsModuleType → Load Info × Map
  unfolding load_unless_cached new_attributes_info
  load_typed fuel app_root path m none = (null, m)
  load_typed fuel app_root path m (some type) =
      load_unless_cached fuel path m
        (build (record new_attributes_info { type = type }) path app_root)

  -- `LoadModule`
  unfoldable pub load_module : ℕ → List ℕ → List ℕ → Map → Load Info × Map
  unfolding load_typed type_of_extension
  load_module fuel app_root path m =
      load_typed fuel app_root path m (type_of_extension (extension path))

-- `GetModuleInfoByModule`: the outer `none` is the use of a module that is empty. Any type will do for
-- `kInvalid`.
unfoldable pub get_module_info_by_module : (ℕ → ℕ) → ℕ → JsModuleType → Map → Option (Option Info)
get_module_info_by_module hash module' type [] = some none
get_module_info_by_module hash module' type ((k, i) ∷ m) = do
  own ← i.v8_module
  let rest = get_module_info_by_module hash module' type m in
      if hash own == hash module'
      then (if type_eq type JsModuleType.invalid || type_eq (i.type) type
          then some (some i)
          else rest)
      else rest

abbrev path_or_empty : Option Info → List ℕ
path_or_empty none = []
path_or_empty (some i) = i.path

unfoldable pub get_specifier_by_module : (ℕ → ℕ) → ℕ → Map → Option (List ℕ)
unfolding get_module_info_by_module
get_specifier_by_module hash module' m =
    get_module_info_by_module hash module' JsModuleType.invalid m >>= λ found.
    some (path_or_empty found)

abbrev json_or_empty : Option Info → Option ℕ
json_or_empty none = none
json_or_empty (some i) = i.json

unfoldable get_json_by_module : (ℕ → ℕ) → ℕ → Map → Option (Option ℕ)
unfolding get_module_info_by_module
get_json_by_module hash module' m =
    get_module_info_by_module hash module' JsModuleType.json m >>= λ found.
    some (json_or_empty found)

-- The module for what a request comes to.
unfoldable pub module_for : Map → Option Info → Option ℕ
module_for m none = none
module_for m (some i) = get_module_by_specifier (i.path) m >>= λ found. found.v8_module

unfoldable pub resolve_request :
    (JsModuleAttributesInfo → List ℕ → List ℕ → Option Info)
    → Map
    → List ℕ
    → Request
    → Option (Bool × JsModuleAttributesInfo)
    → Option (Option ℕ)
unfolding module_for
resolve_request build m referrer q none = none
resolve_request build m referrer q (some (ok, attributes)) =
    if type_eq (attributes.type) JsModuleType.invalid
    then some none
    else some (module_for m (build attributes (q.specifier) (remove_filename referrer)))

-- `ResolveModuleCallback`: the outer `none` is an end of the program, the inner one an empty module.
unfoldable pub resolve_module_callback :
    (JsModuleAttributesInfo → List ℕ → List ℕ → Option Info)
    → (ℕ → ℕ)
    → Request
    → ℕ
    → Map
    → Option (Option ℕ)
unfolding get_specifier_by_module resolve_request
resolve_module_callback build hash q referrer m = do
  specifier ← get_specifier_by_module hash referrer m
  resolve_request build m specifier q
      (get_module_attributes_info true (q.attributes) new_attributes_info)

unfoldable reset_modules : Map → Map
reset_modules m = []

-- `RestoreModules`
unfoldable pub restore_modules :
    (ℕ → Option ℕ) → (ℕ → Option ℕ) → List SnapshotData → Map → Option (Bool × Map)
unfolding new_module_info
restore_modules get_module get_value [] m = some (true, m)
restore_modules get_module get_value (d ∷ ds) m = do
  info ← restore_v8_module get_module get_value d new_module_info
  (new, m') ← some (insert (key_of info) info m)
  if new then restore_modules get_module get_value ds m' else some (false, m')
