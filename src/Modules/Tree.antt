-- ===== src/Modules/Tree.antt =====
-- JSContextModules.cc: a module and what it imports are loaded into the map of the context. What the
-- files and V8 give is a `Host`; the exceptions that are thrown into JavaScript and the log are left out.
pub mod Rules
pub mod Extends
pub mod Closed
pub mod Termination
mod Tests
use v8app.Base.{
  ℕ, zero, suc, ◌≡◌, Bool, true, false, Option, none, some, List, [], ◌∷◌, if◌then◌else◌,
  remove_filename,
}
use v8app.Versions.{is_empty}
use v8app.Modules.{JsModuleType, JsModuleAttributesInfo, new_attributes_info, type_eq}
use v8app.Modules.Attributes.{get_module_attributes_info}
use v8app.Modules.Info.{JsModuleInfo}
use v8app.Modules.Table.{Key, insert, get_module_by_specifier}

-- An import in a module: what is asked for and the array of its attributes.
pub record Request : Type 0 where
  pub specifier : List ℕ
  pub attributes : List (List ℕ)

-- `compile_script` is `LoadScriptFile` with `CompileModule`, `parse_json` is `ReadAsset` with
-- `JSON::Parse`; `none` is a failure of either. V8's modules and values are numbered.
pub record Host : Type 0 where
  pub compile_script : List ℕ → Option ℕ
  pub parse_json : List ℕ → Option ℕ
  pub create_synthetic_module : List ℕ → ℕ
  pub get_module_requests : ℕ → List Request

-- `null` is a null pointer, `unreachable` is where the program is ended.
pub data Load (A : Type 0) : Type 0 where
  null unreachable out_of_fuel : Load A
  loaded : A → Load A

abbrev pub Info : Type 0
Info = JsModuleInfo ℕ ℕ ℕ

abbrev pub Map : Type 0
Map = List (Key × Info)

unfoldable pub compiled : Info → Option ℕ → Load Info
compiled info none = null
compiled info (some m) = loaded (record info { v8_module = some m })

unfoldable pub parsed : (List ℕ → ℕ) → Info → Option ℕ → Load Info
parsed create info none = null
parsed create info (some v) =
    loaded (record info { v8_module = some (create (info.path)); json = some v })

-- The file of a module, by the type that it is imported with.
unfoldable pub load_file : Host → Info → Load Info
unfolding compiled parsed
load_file host info = elim (info.attributes_info.type) [
  | JsModuleType.javascript ↦ compiled info (host.compile_script (info.path))
  | JsModuleType.json ↦ parsed (host.create_synthetic_module) info (host.parse_json (info.path))
  | _ ↦ unreachable
]

unfoldable pub requests : Host → Info → List Request
requests host info = elim (info.v8_module) [ none ↦ [] | some m ↦ host.get_module_requests m ]

-- What the loop does with the result of a call.
unfoldable pub and_then : Load Info × Map → (Map → Load Info × Map) → Load Info × Map
and_then (null, m) rest = (null, m)
and_then (unreachable, m) rest = (unreachable, m)
and_then (out_of_fuel, m) rest = (out_of_fuel, m)
and_then (loaded i, m) rest = rest m

unfoldable pub unless_cached :
    Option Info → (Map → Load Info × Map) → Load Info × Map → Map → Load Info × Map
unfolding and_then
unless_cached (some cached) rest called m = rest m
unless_cached none rest called m = and_then called rest

-- One round of the loop, that calls `load` for what is not in the map.
unfoldable pub load_request :
    (Map → Info → Load Info × Map) → Load Info → Map → (Map → Load Info × Map) → Load Info × Map
unfolding unless_cached
load_request load null m rest = (null, m)
load_request load unreachable m rest = (unreachable, m)
load_request load out_of_fuel m rest = (out_of_fuel, m)
load_request load (loaded i) m rest =
    unless_cached (get_module_by_specifier (i.path) m) rest (load m i) m

unfoldable pub if_inserted : Bool × Map → (Map → Load Info × Map) → Load Info × Map
if_inserted (false, m) rest = (null, m)
if_inserted (true, m) rest = rest m

unfoldable pub key_of : Info → Key
key_of i = record { path = i.path; type = i.attributes_info.type }

-- `AddModule` for what a file gave, and what stands behind it.
unfoldable pub add_module : Map → Load Info → (Info → Map → Load Info × Map) → Load Info × Map
unfolding if_inserted key_of
add_module m null rest = (null, m)
add_module m unreachable rest = (unreachable, m)
add_module m out_of_fuel rest = (out_of_fuel, m)
add_module m (loaded i) rest = if_inserted (insert (key_of i) i m) (rest i)

unfoldable pub info_or_null : Option Info → Load Info
info_or_null none = null
info_or_null (some i) = loaded i

-- The test of the attributes, which does not look at their result.
unfoldable pub build_request :
    (JsModuleAttributesInfo → List ℕ → List ℕ → Option Info)
    → Info
    → Request
    → Option (Bool × JsModuleAttributesInfo)
    → Load Info
unfolding info_or_null
build_request build info q none = unreachable
build_request build info q (some (ok, attributes)) =
    if type_eq (attributes.type) JsModuleType.invalid
    then null
    else if is_empty (info.path)
    then null
    else info_or_null (build attributes (q.specifier) (remove_filename (info.path)))

-- What a request of a module asks for.
unfoldable pub request_info :
    (JsModuleAttributesInfo → List ℕ → List ℕ → Option Info) → Info → Request → Load Info
unfolding build_request
request_info build info q =
    build_request build info q (get_module_attributes_info true (q.attributes) new_attributes_info)

module _ (host : Host) (build : JsModuleAttributesInfo → List ℕ → List ℕ → Option (Info)) where
  -- The loop over the requests of a module.
  unfoldable pub load_requests :
      (Map → Info → Load Info × Map) → Info → List Request → Map → Load Info × Map
  unfolding load_request request_info
  load_requests load info [] m = (loaded info, m)
  load_requests load info (q ∷ qs) m =
      load_request load (request_info build info q) m (λ m'. load_requests load info qs m')

  -- `LoadModuleTree`
  unfoldable pub load_module_tree : ℕ → Map → Info → Load Info × Map
  unfolding add_module load_requests load_file requests
  load_module_tree zero m info = (out_of_fuel, m)
  load_module_tree (suc fuel) m info =
      add_module m (load_file host info)
        (λ i m'. load_requests (λ m'' j. load_module_tree fuel m'' j) i (requests host i) m')
