-- ===== src/Assets/Tests.antt =====
-- Paths at the root of an application, the scan of a module's versions, and the theorem at concrete inputs.
use v8app.Base.{ℕ, ◌≡◌, ◌⊎◌, refl, true, false, List, [], ◌∷◌, codes, list_eq, if◌then◌else◌, All}
use v8app.Assets.{AppAssetRoots, new_roots, replace_tokens, get_modules_latest_version}
use v8app.Assets.Anchored.{make_absolute_path_to_root, make_relative_path_to_root}
use v8app.Assets.Scan.{DirEntry, version_of, scan_versions}
use v8app.Assets.Scan.Latest.{IsAbove, IsAmong, scan_versions_latest}

-- What the file system makes of the paths below, there being no links.
canonical : List ℕ → List ℕ
canonical path =
    if list_eq path (codes "/app/../app2/x.js")
    then codes "/app2/x.js"
    else if list_eq path (codes "/app/js/../../x.js")
    then codes "/x.js"
    else path

abbrev app : AppAssetRoots
app = record new_roots { app_root = codes "/app" }

tokens_replaced :
    (replace_tokens app (codes "%JS%/main.js") ≡ codes "/app/js/main.js")
    × (replace_tokens app (codes "%APPROOT%/js/a.js") ≡ codes "/app/js/a.js")
    × (replace_tokens app (codes "%RESOURCES%/a/b.json") ≡ codes "/app/resources/a/b.json")
unfolding replace_tokens
tokens_replaced = (refl, refl, refl)

anchored :
    (make_absolute_path_to_root canonical (codes "js/a.js") (codes "/app") ≡ codes "/app/js/a.js")
    × (make_absolute_path_to_root canonical (codes "/js/a.js") (codes "/app")
        ≡ codes "/app/js/a.js")
    × (make_relative_path_to_root canonical (codes "/app/js/a.js") (codes "/app") ≡ codes "js/a.js")
    × (make_absolute_path_to_root canonical (codes "js/../../x.js") (codes "/app") ≡ [])
unfolding make_absolute_path_to_root make_relative_path_to_root canonical
anchored = (refl, refl, refl, refl)

-- A directory beside the root whose name begins like the root's is taken for a part of it.
beside_root :
    make_absolute_path_to_root canonical (codes "../app2/x.js") (codes "/app") ≡ codes "/app2/x.js"
unfolding make_absolute_path_to_root canonical
beside_root = refl

abbrev entries : List DirEntry
entries =
    record { name = codes "1.2.0"; is_directory = true }
    ∷ record { name = codes "1.10.0"; is_directory = true }
    ∷ record { name = codes "notes"; is_directory = false }
    ∷ []

scan_versions_latest_example :
    (((get_modules_latest_version
          (codes "m")
          (scan_versions (codes "m") (codes "/app/modules/m") entries app))
        ≡ get_modules_latest_version (codes "m") app)
      ⊎ IsAmong entries (
          get_modules_latest_version
            (codes "m")
            (scan_versions (codes "m") (codes "/app/modules/m") entries app)))
    × All
        (λ entry.
          (version_of entry).valid ≡ true
          → IsAbove
              (get_modules_latest_version
                (codes "m")
                (scan_versions (codes "m") (codes "/app/modules/m") entries app))
              (version_of entry))
        entries
scan_versions_latest_example = scan_versions_latest (codes "m") (codes "/app/modules/m") entries app
