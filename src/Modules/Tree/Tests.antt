-- ===== src/Modules/Tree/Tests.antt =====
-- Two scripts that import each other, loaded, linked and loaded again, and the theorems at them.
use v8app.Base.{
  ℕ, ◌≡◌, ◌≢◌, refl, subst, true, Option, none, some, List, [], ◌∷◌, ◌++◌, arith, codes, list_eq,
  ◌==◌, if◌then◌else◌,
}
use v8app.Versions.{new_version}
use v8app.Modules.{JsModuleType, JsModuleAttributesInfo, new_attributes_info, type_code, type_eq}
use v8app.Modules.Attributes.{get_module_attributes_info, scan_attributes}
use v8app.Modules.Info.{new_module_info}
use v8app.Modules.Table.{
  Key, lookup, place, insert, get_module_by_specifier, has_path, key_eq, key_ltb,
}
use v8app.Modules.Tree.{
  Info, Map, Host, Request, null, loaded, out_of_fuel, load_module_tree, load_file, compiled,
  parsed, key_of, add_module, if_inserted, load_requests, load_request, unless_cached, and_then,
  requests, request_info, build_request, info_or_null,
}
use v8app.Modules.Tree.Extends.{Extends, load_module_tree-Extends}
use v8app.Modules.Tree.Termination.{load_module_tree_terminates, has_file}
use v8app.Modules.Tree.Closed.{IsClosed, load_module_tree-IsClosed}
use v8app.Modules.Context.{
  get_module_info_by_module, resolve_module_callback, load_module, load_typed, load_unless_cached,
  type_of_extension,
}
use v8app.Modules.Linking.{resolve_module_callback-IsClosed, load_module_again}

abbrev ask : List ℕ → List Request
ask name = record { specifier = name; attributes = [] } ∷ []

abbrev host : Host
host = record {
  compile_script = λ p.
      if list_eq (codes "/m.js") p
      then some 1
      else if list_eq (codes "/n.js") p
      then some 2
      else none;
  parse_json = λ p. none;
  create_synthetic_module = λ p. 0;
  get_module_requests = λ n. if n == 1 then ask (codes "n.js") else ask (codes "m.js");
}

-- A token stands for the root.
abbrev build : JsModuleAttributesInfo → List ℕ → List ℕ → Option Info
build attributes path current = some (record new_module_info {
  path = if list_eq path (codes "%m.js") then codes "/m.js" else current ++ path;
  type = attributes.type;
  attributes_info = attributes;
})

abbrev script : List ℕ → Option ℕ → Info
script path v8_module = record new_module_info {
  path = path;
  type = JsModuleType.javascript;
  attributes_info = record new_attributes_info { type = JsModuleType.javascript };
  v8_module = v8_module;
}

abbrev key : List ℕ → Key
key path = record { path = path; type = JsModuleType.javascript }

abbrev both : Map
both =
    (key (codes "/m.js"), script (codes "/m.js") (some 1))
    ∷ (key (codes "/n.js"), script (codes "/n.js") (some 2))
    ∷ []

load_both :
    load_module_tree host build 3 [] (script (codes "/m.js") none)
    ≡ (loaded (script (codes "/m.js") (some 1)), both)
unfolding load_module_tree load_file compiled parsed key_of add_module if_inserted load_requests
    load_request unless_cached and_then requests request_info build_request info_or_null insert
    lookup place get_module_by_specifier key_eq key_ltb type_eq get_module_attributes_info
    scan_attributes new_module_info new_attributes_info new_version type_code
load_both = refl

load_module_tree-Extends_example :
    Extends [] (load_module_tree host build 3 [] (script (codes "/m.js") none)).1
load_module_tree-Extends_example =
    load_module_tree-Extends host build 3 [] (script (codes "/m.js") none)

files : List (List ℕ)
files = codes "/m.js" ∷ codes "/n.js" ∷ []

only_files : (info i : Info) → load_file host info ≡ loaded i → has_file info.path files ≡ true
unfolding load_file compiled parsed has_file files
only_files info i e = ground arith

load_module_tree_terminates_example :
    (load_module_tree host build 3 [] (script (codes "/m.js") none)).0 ≢ out_of_fuel
load_module_tree_terminates_example =
    load_module_tree_terminates host build files 3 [] (script (codes "/m.js") none) only_files
      (unfold files in omega arith) (unfold has_path in refl)

load_module_tree-IsClosed_example :
    IsClosed host build (load_module_tree host build 3 [] (script (codes "/m.js") none)).1
    × (has_path (codes "/m.js") (load_module_tree host build 3 [] (script (codes "/m.js") none)).1
        ≡ true)
load_module_tree-IsClosed_example =
    load_module_tree-IsClosed host build 3 [] (script (codes "/m.js") none)
      (script (codes "/m.js") (some 1)) none_IsClosed (rw load_both refl)
  where
    none_IsClosed : IsClosed host build []
    none_IsClosed = unfold IsClosed in unfold lookup in (λ k i e. cc)

both-IsClosed : IsClosed host build both
both-IsClosed = subst (λ x. IsClosed host build x.1) load_both load_module_tree-IsClosed_example.0

hash : ℕ → ℕ
hash n = n

resolve_module_callback-IsClosed_example :
    (j : Info) × (found : Info) × (request_info build
        (script (codes "/n.js") (some 2))
        (record { specifier = codes "m.js"; attributes = [] })
      ≡ loaded j)
    × (get_module_by_specifier j.path both ≡ some found)
    × (resolve_module_callback build hash
          (record { specifier = codes "m.js"; attributes = [] })
          2
          both
        ≡ some found.v8_module)
unfolding get_module_info_by_module hash lookup key_eq requests type_eq
resolve_module_callback-IsClosed_example =
    resolve_module_callback-IsClosed host build hash both (key (codes "/n.js"))
      (script (codes "/n.js") (some 2)) (record { specifier = codes "m.js"; attributes = [] }) [] []
      2 both-IsClosed refl refl refl

load_module_again_example : load_module host build 3 (codes "/") (codes "%m.js") both ≡ (null, both)
unfolding load_file compiled lookup key_eq has_path type_of_extension new_attributes_info
    new_module_info key_of
load_module_again_example =
    load_module_again host build 2 (codes "/") (codes "%m.js") both JsModuleType.javascript
      (script (codes "/m.js") none) (script (codes "/m.js") (some 1))
      (script (codes "/m.js") (some 1)) refl refl refl refl refl

-- A module whose import cannot be loaded stays in the map, and the next load of its path gives it.
abbrev no_import : Host
no_import = record host { compile_script = λ p. if list_eq (codes "/m.js") p then some 1 else none }

abbrev left_over : Map
left_over = (key (codes "/m.js"), script (codes "/m.js") (some 1)) ∷ []

load_fails :
    (load_module_tree no_import build 3 [] (script (codes "/m.js") none) ≡ (null, left_over))
    × (load_module no_import build 3 [] (codes "/m.js") left_over
        ≡ (loaded (script (codes "/m.js") (some 1)), left_over))
unfolding load_module load_typed load_unless_cached type_of_extension load_module_tree load_file
    compiled parsed key_of add_module if_inserted load_requests load_request unless_cached and_then
    requests request_info build_request info_or_null insert lookup place get_module_by_specifier
    key_eq key_ltb type_eq get_module_attributes_info scan_attributes new_module_info
    new_attributes_info new_version type_code
load_fails = (refl, refl)
