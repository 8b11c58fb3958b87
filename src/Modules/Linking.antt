-- ===== src/Modules/Linking.antt =====
-- What V8 asks for when it links the modules, and a module that is loaded twice.
use v8app.Base.{
  ℕ, suc, ◌≡◌, refl, subst, ◌∙◌, Bool, true, false, Option, none, some, List, ◌∷◌, ◌++◌, arith, All,
  All-at, extension,
}
use v8app.Modules.{JsModuleType, JsModuleAttributesInfo, new_attributes_info}
use v8app.Modules.Attributes.{get_module_attributes_info}
use v8app.Modules.Table.{
  Key, lookup, has_path, get_module_by_specifier, get-absent, get-present, insert_old,
}
use v8app.Modules.Tree.{
  Info, Map, Host, Request, null, loaded, key_of, request_info, build_request, info_or_null,
  requests, load_file, load_module_tree, add_module, if_inserted,
}
use v8app.Modules.Tree.Closed.{IsFound, IsResolved, IsClosed}
use v8app.Modules.Context.{
  get_module_info_by_module, get_specifier_by_module, resolve_request, module_for,
  resolve_module_callback, load_unless_cached, load_typed, load_module, type_of_extension,
}

resolve_request_lem :
    (build : JsModuleAttributesInfo → List ℕ → List ℕ → Option Info) (m : Map) (i j found : Info)
    (q : Request) (a : Option (Bool × JsModuleAttributesInfo))
    → build_request build i q a ≡ loaded j
    → get_module_by_specifier j.path m ≡ some found
    → resolve_request build m i.path q a ≡ some found.v8_module
unfolding build_request resolve_request info_or_null module_for
resolve_request_lem build m i j found q none e g = cc
resolve_request_lem build m i j found q (some (ok, a)) e g = ground arith

-- In a closed map each request of a module is resolved: to what is in the map under the path that it
-- comes to. `module'` is V8's module of the referrer.
pub resolve_module_callback-IsClosed :
    (host : Host) (build : JsModuleAttributesInfo → List ℕ → List ℕ → Option Info) (hash : ℕ → ℕ)
    (m : Map) (k : Key) (i : Info) (q : Request) (before after : List Request) (module' : ℕ)
    → IsClosed host build m
    → lookup k m ≡ some i
    → get_module_info_by_module hash module' JsModuleType.invalid m ≡ some (some i)
    → requests host i ≡ before ++ (q ∷ after)
    → (j : Info) × (found : Info) × (request_info build i q ≡ loaded j)
      × (get_module_by_specifier j.path m ≡ some found)
      × (resolve_module_callback build hash q module' m ≡ some found.v8_module)
unfolding IsClosed IsResolved IsFound resolve_module_callback request_info get_specifier_by_module
resolve_module_callback-IsClosed host build hash m k i q before after module' closed here own
      asked =
    let (j, f, there) =
      All-at (IsFound host build m i) before after q
        (subst (All (IsFound host build m i)) asked (closed k i here)) in
    let (found, g) = get-present j.path m there in
    (
      j,
      found,
      f,
      g,
      rw own (
          resolve_request_lem build m i j found q
            (get_module_attributes_info true q.attributes new_attributes_info) f g),
    )

-- A module that is in the map under the path that it was resolved to, and is asked for again by another
-- name of that path, is not found there; it cannot be added a second time, and the load fails.
pub load_module_again :
    (host : Host) (build : JsModuleAttributesInfo → List ℕ → List ℕ → Option Info) (fuel : ℕ)
    (app_root path : List ℕ) (m : Map) (type : JsModuleType) (info i c : Info)
    → type_of_extension (extension path) ≡ some type
    → build (record new_attributes_info { type = type }) path app_root ≡ some info
    → load_file host info ≡ loaded i
    → lookup (key_of i) m ≡ some c
    → has_path path m ≡ false
    → load_module host build (suc fuel) app_root path m ≡ (null, m)
unfolding load_module load_typed load_unless_cached load_module_tree add_module if_inserted
    new_attributes_info
load_module_again host build fuel app_root path m type info i c ext built file there name =
    rw (ext, built) (unless_cached_lem ∙ rw (file, insert_old (key_of i) i c m there) refl)
  where
    unless_cached_lem :
        load_unless_cached host build (suc fuel) path m (some info)
        ≡ load_module_tree host build (suc fuel) m info
    unless_cached_lem = rw (load_unless_cached, get-absent path m name) refl
