-- ===== src/Modules/Build/Tests.antt =====
-- An import of a file in the js directory, and the theorem at it.
use v8app.Base.{ℕ, List, ◌>>=◌, list_eq, if◌then◌else◌, ℕ, ◌≡◌, refl, some, List, codes}
use v8app.Assets.{
  AppAssetRoots, new_roots, replace_tokens, make_relative_path_to_app_root,
  make_absolute_path_to_app_root,
}
use v8app.Assets.Anchored.{make_absolute_path_to_root, make_relative_path_to_root}
use v8app.Modules.{
  JsModuleType, JsModuleAttributesInfo, new_attributes_info, does_extension_match_type, type_eq,
  type_code,
}
use v8app.Modules.Tree.{Info}
use v8app.Modules.Build.{absolute_import, build_script, build_at, build_module_info, new_info}

abbrev app : AppAssetRoots
app = record new_roots { app_root = codes "/app" }

abbrev attributes : JsModuleAttributesInfo
attributes = record new_attributes_info { type = JsModuleType.javascript }

abbrev script : Info
script = record (new_info (λ p. p) app attributes) {
  path = codes "/app/js/a.js";
  module_name = codes "a";
}

-- What the file system makes of one path.
abbrev leaving : List ℕ → List ℕ
leaving path = if list_eq path (codes "/app/../appjs/x.js") then codes "/appjs/x.js" else path

-- A file beside the root, below a directory whose name begins like the root's, is taken for a script.
outside_root :
    (build_module_info leaving app attributes (codes "/../appjs/x.js") (codes "/app/js/")
      >>= λ info. some info.path)
    ≡ some (codes "/appjs/x.js")
unfolding build_module_info absolute_import build_at build_script does_extension_match_type type_eq
    type_code make_absolute_path_to_root make_relative_path_to_root make_relative_path_to_app_root
    replace_tokens new_attributes_info new_roots make_absolute_path_to_app_root
outside_root = refl
