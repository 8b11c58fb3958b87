-- ===== src/Modules/Build.antt =====
-- JSContextModules.cc, `BuildModuleInfo`: which file an import means, or `none`, with an exception in
-- JavaScript that is left out. The name that an iterator at the end of a path gives is taken to be empty.
pub mod Allowed
mod Tests
use v8app.Base.{
  ℕ, ◌≡◌, ◌≢◌, refl, Bool, true, false, not, ◌&&◌, ◌||◌, Option, none, some, List, [], ◌∷◌, ◌++◌,
  ◌==◌, ◌>>=◌, if◌then◌else◌, list_eq, codes, extension, stem, components, front_or_empty, join,
  path_append,
}
use v8app.Versions.{VersionString, new_version, is_empty}
use v8app.Versions.Parse.{set_version_string}
use v8app.Assets.{
  AppAssetRoots, find_module_version_root_path, find_module_latest_version_root_path,
  get_modules_latest_version, make_absolute_path_to_app_root, make_relative_path_to_app_root,
}
use v8app.Assets.Anchored.{make_absolute_path_to_root}
use v8app.Modules.{JsModuleType, JsModuleAttributesInfo, does_extension_match_type}
use v8app.Modules.Info.{JsModuleInfo, new_module_info, set_version}
use v8app.Modules.Tree.{Info}

abbrev starts_anchored : List ℕ → Bool
starts_anchored [] = false
starts_anchored (c ∷ path) = c == b'%' || c == b'/'

abbrev pub rest_of : List (List ℕ) → List (List ℕ)
rest_of [] = []
rest_of (part ∷ parts) = parts

module _ (canonical : List ℕ → List ℕ) (roots : AppAssetRoots) where
  -- The root of the module that the attributes pin the import to.
  unfoldable pinned_root : JsModuleAttributesInfo → List ℕ
  pinned_root attributes =
      if attributes.version.valid
      then find_module_version_root_path
          (path_append (attributes.module_name) (attributes.version.version)) roots
      else find_module_latest_version_root_path (attributes.module_name) roots

  unfoldable pub absolute_import : JsModuleAttributesInfo → List ℕ → List ℕ → Option (List ℕ)
  unfolding pinned_root
  absolute_import attributes path current =
      let root = pinned_root attributes in
      if starts_anchored path
      then some (make_absolute_path_to_app_root canonical roots path)
      else if is_empty attributes.module_name
      then some (make_absolute_path_to_root canonical path current)
      else if is_empty root
      then none
      else some (make_absolute_path_to_root canonical path root)

  abbrev pub relative_import : List ℕ → List ℕ
  relative_import path = make_relative_path_to_app_root canonical roots path

  unfoldable pub new_info : JsModuleAttributesInfo → Info
  new_info attributes = record new_module_info {
    attributes_info = attributes;
    type = attributes.type;
  }

  abbrev file_info : JsModuleAttributesInfo → List ℕ → Info
  unfolding new_info
  file_info attributes path = record (new_info attributes) { path = path; module_name = stem path }

  unfoldable pub build_script : JsModuleAttributesInfo → List ℕ → List ℕ → Option Info
  unfolding file_info
  build_script attributes path relative =
      if not (is_empty attributes.module_name)
      then none
      else if not (does_extension_match_type (attributes.type) (extension relative))
      then none
      else some (file_info attributes path)

  unfoldable pub build_resource : JsModuleAttributesInfo → List ℕ → List ℕ → Option Info
  unfolding file_info
  build_resource attributes path relative =
      if not (is_empty attributes.module_name)
      then none
      else if list_eq (extension relative) (codes ".js")
          || (list_eq (extension relative) (codes ".mjs")
              || list_eq (extension relative) (codes ".vbin"))
      then none
      else if not (does_extension_match_type (attributes.type) (extension relative))
      then none
      else some (file_info attributes path)

  -- A module's file: below the root of the module's version stands what follows it in the path.
  unfoldable pub versioned_info :
      JsModuleAttributesInfo → List ℕ → List ℕ → List (List ℕ) → Option Info
  unfolding new_info set_version
  versioned_info attributes name version behind =
      let root = find_module_version_root_path (name ++ (codes "/" ++ version)) roots in
      if is_empty root
      then none
      else some (record (set_version version (new_info attributes)) {
        module_name = name;
        path = join root behind;
      })

  unfoldable pub build_versioned : JsModuleAttributesInfo → List ℕ → List (List ℕ) → Option Info
  unfolding versioned_info
  build_versioned attributes name parts =
      let latest = (get_modules_latest_version name roots).version in
      if (set_version_string (front_or_empty parts) new_version).1.valid
      then versioned_info attributes name (front_or_empty parts) (rest_of parts)
      else if is_empty latest
      then none
      else versioned_info attributes name latest parts

  unfoldable pub build_module : JsModuleAttributesInfo → List ℕ → List (List ℕ) → Option Info
  unfolding build_versioned
  build_module attributes relative parts =
      if not (does_extension_match_type (attributes.type) (extension relative))
      then none
      else if not (is_empty attributes.module_name)
          && not (list_eq attributes.module_name (front_or_empty parts))
      then none
      else build_versioned attributes (front_or_empty parts) (rest_of parts)

  unfoldable pub build_at : JsModuleAttributesInfo → List ℕ → List ℕ → Option Info
  unfolding build_script build_module build_resource
  build_at attributes path relative =
      if list_eq (front_or_empty (components relative)) (codes "js")
      then build_script attributes path relative
      else if list_eq (front_or_empty (components relative)) (codes "modules")
      then build_module attributes relative (rest_of (components relative))
      else if list_eq (front_or_empty (components relative)) (codes "resources")
      then build_resource attributes path relative
      else none

  unfoldable pub build_module_info : JsModuleAttributesInfo → List ℕ → List ℕ → Option Info
  unfolding absolute_import build_at
  build_module_info attributes path current =
      absolute_import attributes path current >>= λ absolute.
      build_at attributes absolute (relative_import absolute)
