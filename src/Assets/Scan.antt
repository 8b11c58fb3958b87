-- ===== src/Assets/Scan.antt =====
-- `FindAssetRoots` and `SetAppRootPath`: the directories of an application are scanned. `list` is what the
-- file system has in a directory.
pub mod Latest
use v8app.Base.{
  ℕ, ◌≡◌, Bool, true, false, not, ◌&&◌, ◌||◌, List, [], ◌∷◌, if◌then◌else◌, codes, list_eq,
  path_append, pos, int_ltb,
}
use v8app.Versions.{VersionString, new_version, compare_versions}
use v8app.Versions.Parse.{set_version_string}
use v8app.Assets.{
  AppAssetRoots, add_module_root_path, get_modules_latest_version, set_modules_latest_version,
}

pub record DirEntry : Type 0 where
  pub name : List ℕ
  pub is_directory : Bool

abbrev pub version_of : DirEntry → VersionString
version_of entry = (set_version_string (entry.name) new_version).1

-- `operator<`
unfoldable pub version_ltb : VersionString → VersionString → Bool
version_ltb a b = int_ltb (compare_versions a b) (pos 0)

unfoldable pub keep_latest : List ℕ → VersionString → AppAssetRoots → AppAssetRoots
unfolding version_ltb
keep_latest name version roots =
    let latest = get_modules_latest_version name roots in
    let changed = set_modules_latest_version name version roots in
    if latest.valid then (if version_ltb latest version then changed else roots) else changed

-- An entry in the directory of a module.
unfoldable pub scan_version : List ℕ → List ℕ → DirEntry → AppAssetRoots → AppAssetRoots
unfolding keep_latest
scan_version name dir entry roots =
    let version = version_of entry in
    let added =
      (add_module_root_path (path_append name (entry.name)) (path_append dir (entry.name))
        roots).1 in
    let kept = keep_latest name version added in if version.valid then kept else roots

unfoldable pub scan_versions : List ℕ → List ℕ → List DirEntry → AppAssetRoots → AppAssetRoots
unfolding scan_version
scan_versions name dir [] roots = roots
scan_versions name dir (entry ∷ entries) roots =
    scan_versions name dir entries (scan_version name dir entry roots)

abbrev is_reserved : List ℕ → Bool
is_reserved name = list_eq name (codes "js") || list_eq name (codes "resources")

module _ (list : List ℕ → List DirEntry) where
  -- The directories of the modules.
  unfoldable scan_modules : List ℕ → List DirEntry → AppAssetRoots → AppAssetRoots
  unfolding scan_versions
  scan_modules base [] roots = roots
  scan_modules base (entry ∷ entries) roots =
      let dir = path_append base (entry.name) in
      scan_modules base entries (
        if not entry.is_directory || is_reserved (entry.name)
        then roots
        else scan_versions (entry.name) dir (list dir) roots)

  abbrev has_directory : List ℕ → List DirEntry → Bool
  has_directory name [] = false
  has_directory name (entry ∷ entries) =
      entry.is_directory && list_eq (entry.name) name || has_directory name entries

  unfoldable find_asset_roots : List ℕ → AppAssetRoots → Bool × AppAssetRoots
  unfolding scan_modules
  find_asset_roots root roots =
      let entries = list root in
      let with_js = (add_module_root_path (codes "js") (path_append root (codes "js")) roots).1 in
      let with_both =
        (add_module_root_path (codes "resources") (path_append root (codes "resources"))
          with_js).1 in
      let base = path_append root (codes "modules") in
      if has_directory (codes "js") entries
        && (has_directory (codes "modules") entries && has_directory (codes "resources") entries)
      then (true, scan_modules base (list base) with_both)
      else (false, roots)

  -- The root is set once. `exists` says whether a path is a directory that exists.
  unfoldable set_app_root_path :
      (List ℕ → Bool) → (List ℕ → List ℕ) → List ℕ → AppAssetRoots → Bool × AppAssetRoots
  unfolding find_asset_roots
  set_app_root_path exists absolute path roots =
      let (ok, found) = find_asset_roots path roots in
      if list_eq (roots.app_root) [] && exists path
      then (if ok then (true, record found { app_root = absolute path }) else (false, found))
      else (false, roots)
