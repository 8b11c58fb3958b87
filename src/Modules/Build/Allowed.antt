-- ===== src/Modules/Build/Allowed.antt =====
-- What an import can come to.
use v8app.Base.{
  ℕ, ◌≡◌, ◌++◌, join, true, false, List, [], ◌⊎◌, codes, extension, components, front_or_empty,
}
use v8app.Versions.{is_empty}
use v8app.Assets.{AppAssetRoots, get_modules_latest_version, find_module_version_root_path}
use v8app.Modules.{JsModuleType, JsModuleAttributesInfo, does_extension_match_type}
use v8app.Modules.Tree.{Info}
use v8app.Modules.Build.{rest_of}

abbrev top : List ℕ → List ℕ
top relative = front_or_empty (components relative)

-- The registered root of a module's version.
abbrev pub version_root : AppAssetRoots → List ℕ → List ℕ → List ℕ
version_root roots name version =
    find_module_version_root_path (name ++ (codes "/" ++ version)) roots

-- The parts of a path behind the directory of the modules and the name of the module.
abbrev pub parts_behind : List ℕ → List (List ℕ)
parts_behind relative = rest_of (rest_of (components relative))

-- The file of a module: what stands behind the module's version, below the root of that version, or, where
-- the path gives no version, what stands behind the module's name, below the root of the latest one.
pub record IsVersioned (roots : AppAssetRoots) (name : List ℕ) (parts : List (List ℕ)) (info : Info)
    : Type 0 where
  pub version : List ℕ
  pub behind : List (List ℕ)
  pub from_path :
      ((version ≡ front_or_empty parts) × (behind ≡ rest_of parts))
      ⊎ ((version ≡ (get_modules_latest_version name roots).version) × (behind ≡ parts))
  pub registered : is_empty (version_root roots name version) ≡ false
  pub stored : info.path ≡ join (version_root roots name version) behind

-- Which file the module has.
pub data IsLocated (roots : AppAssetRoots) (absolute relative : List ℕ) (info : Info) : Type 0 where
  as_asked :
      (top relative ≡ codes "js") ⊎ (top relative ≡ codes "resources")
      → info.path ≡ absolute
      → IsLocated roots absolute relative info
  in_module :
      top relative ≡ codes "modules"
      → info.module_name ≡ front_or_empty (rest_of (components relative))
      → IsVersioned roots info.module_name (parts_behind relative) info
      → IsLocated roots absolute relative info

-- `absolute` is the path that the import is anchored to, and `relative` the same from the root of the
-- application.
pub record IsAllowed (roots : AppAssetRoots) (attributes : JsModuleAttributesInfo)
    (absolute relative : List ℕ) (info : Info) : Type 0 where
  pub same_type : info.type ≡ attributes.type
  pub same_attributes : info.attributes_info ≡ attributes
  pub extension_matches : does_extension_match_type attributes.type (extension relative) ≡ true
  pub located : IsLocated roots absolute relative info
  pub data_only : top relative ≡ codes "resources" → attributes.type ≡ JsModuleType.json
  pub pinned :
      (attributes.module_name ≡ [])
      ⊎ ((top relative ≡ codes "modules") × (info.module_name ≡ attributes.module_name))

-- What is left of that when the root is known.
record IsTyped (attributes : JsModuleAttributesInfo) (relative : List ℕ) (info : Info)
    : Type 0 where
  typed : info.type ≡ attributes.type
  with_attributes : info.attributes_info ≡ attributes
  matches : does_extension_match_type attributes.type (extension relative) ≡ true

module _ (canonical : List ℕ → List ℕ) (roots : AppAssetRoots) where
  record IsNamed (attributes : JsModuleAttributesInfo) (name : List ℕ) (info : Info) : Type 0 where
    typed : info.type ≡ attributes.type
    with_attributes : info.attributes_info ≡ attributes
    named : info.module_name ≡ name
