-- ===== src/Assets.antt =====
-- AppAssetRoots (libs/core/include/Assets/AppAssetRoots.h, src/Assets/AppAssetRoots.cc): the roots of an
-- application's modules and their latest versions. A path is its text, on a POSIX system, and
-- `canonical` is what the file system makes of a path (`std::filesystem::weakly_canonical`).
pub mod Anchored
pub mod Scan
mod Tests
use v8app.Base.{
  ℕ, zero, suc, ◌+◌, ◌≡◌, Bool, true, false, not, ◌&&◌, ◌||◌, Option, none, some, List, [], ◌∷◌,
  ◌++◌, arith, ◌==◌, if◌then◌else◌, codes, list_eq, find, place, emplace, erase, drop, path_append,
  starts_with, lexically_relative, is_absolute,
}
use v8app.Versions.{VersionString, new_version}
use v8app.Versions.Parse.{set_version_string}
use v8app.Assets.Anchored.{make_absolute_path_to_root, make_relative_path_to_root}

pub record AppAssetRoots : Type 0 where
  pub module_roots : List (List ℕ × List ℕ)
  pub module_latest_version : List (List ℕ × VersionString)
  pub app_root : List ℕ

unfoldable pub new_roots : AppAssetRoots
new_roots = record { module_roots = []; module_latest_version = []; app_root = [] }

abbrev is_none : {A : Type 0} → Option A → Bool
is_none none = true
is_none (some a) = false

unfoldable pub add_module_root_path : List ℕ → List ℕ → AppAssetRoots → Bool × AppAssetRoots
add_module_root_path name path roots = (
  is_none (find name (roots.module_roots)),
  record roots { module_roots = emplace name path (roots.module_roots) },
)

abbrev or_empty : Option (List ℕ) → List ℕ
or_empty none = []
or_empty (some path) = path

unfoldable pub find_module_version_root_path : List ℕ → AppAssetRoots → List ℕ
find_module_version_root_path name roots = or_empty (find name (roots.module_roots))

unfoldable remove_module_root_path : List ℕ → AppAssetRoots → AppAssetRoots
remove_module_root_path name roots = record roots { module_roots = erase name (roots.module_roots) }

-- `insert_or_assign`
abbrev pub replace :
    List ℕ → VersionString → List (List ℕ × VersionString) → List (List ℕ × VersionString)
replace name version [] = []
replace name version ((k, v) ∷ m) =
    if list_eq k name then (k, version) ∷ m else (k, v) ∷ replace name version m

abbrev pub assign :
    List ℕ → VersionString → List (List ℕ × VersionString) → List (List ℕ × VersionString)
assign name version m = elim (find name m) [
  | some old ↦ replace name version m
  | none ↦ place name version m
]

unfoldable pub set_modules_latest_version : List ℕ → VersionString → AppAssetRoots → AppAssetRoots
set_modules_latest_version name version roots = record roots {
  module_latest_version = assign name version (roots.module_latest_version);
}

-- `VersionString("")` for a module that has none.
abbrev pub version_or_none : Option VersionString → VersionString
version_or_none none = (set_version_string [] new_version).1
version_or_none (some version) = version

unfoldable pub get_modules_latest_version : List ℕ → AppAssetRoots → VersionString
get_modules_latest_version name roots = version_or_none (find name (roots.module_latest_version))

unfoldable remove_modules_latest_version : List ℕ → AppAssetRoots → AppAssetRoots
remove_modules_latest_version name roots = record roots {
  module_latest_version = erase name (roots.module_latest_version);
}

unfoldable pub find_module_latest_version_root_path : List ℕ → AppAssetRoots → List ℕ
unfolding get_modules_latest_version find_module_version_root_path
find_module_latest_version_root_path name roots =
    let version = get_modules_latest_version name roots in
    if not version.valid
    then []
    else find_module_version_root_path (name ++ (codes "/" ++ version.version)) roots

-- The length of the token that a path starts with, and what it stands for.
abbrev token : List ℕ → Option (ℕ × List ℕ)
token path =
    if starts_with path (codes "%APPROOT%")
    then some (9, [])
    else if starts_with path (codes "%JS%")
    then some (4, codes "js")
    else if starts_with path (codes "%MODULES%")
    then some (9, codes "modules")
    else if starts_with path (codes "%RESOURCES%")
    then some (11, codes "resources")
    else none

abbrev under : List ℕ → List ℕ → List ℕ
under [] path = path
under (c ∷ cs) path = path_append (c ∷ cs) path

unfoldable pub replace_tokens : AppAssetRoots → List ℕ → List ℕ
replace_tokens roots path = elim (token path) [
  | none ↦ path
  | some (length, stands_for) ↦
      path_append (roots.app_root)
        (under stands_for (lexically_relative (drop length path) (codes "/")))
]

unfoldable pub make_relative_path_to_app_root : (List ℕ → List ℕ) → AppAssetRoots → List ℕ → List ℕ
unfolding make_relative_path_to_root replace_tokens
make_relative_path_to_app_root canonical roots path =
    make_relative_path_to_root canonical (replace_tokens roots path) (roots.app_root)

unfoldable pub make_absolute_path_to_app_root : (List ℕ → List ℕ) → AppAssetRoots → List ℕ → List ℕ
unfolding make_absolute_path_to_root replace_tokens
make_absolute_path_to_app_root canonical roots path =
    make_absolute_path_to_root canonical (replace_tokens roots path) (roots.app_root)
