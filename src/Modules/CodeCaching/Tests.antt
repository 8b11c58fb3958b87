-- ===== src/Modules/CodeCaching/Tests.antt =====
-- A script that was loaded, and whose module was instantiated.
use v8app.Base.{ℕ, ◌≡◌, refl, Bool, true, false, none, some, List, [], ◌∷◌, codes, list_eq}
use v8app.Assets.{AppAssetRoots, new_roots}
use v8app.CodeCache.{path_key, Cache, Files, has_code_cache, load_script_file}
use v8app.CodeCache.Entries.{IsValid}
use v8app.CodeCache.Loads.{load_script_file-IsValid}
use v8app.Modules.{JsModuleType, type_eq}
use v8app.Modules.Info.{new_module_info}
use v8app.Modules.Table.{Key}
use v8app.Modules.Tree.{Info, Map}
use v8app.Modules.CodeCaching.{Compiler, generate_code_cache}
use v8app.Modules.CodeCaching.Kept.{Keeps, generate_code_cache-Keeps}
use v8app.Modules.CodeCaching.Complete.{IsReady, generate_code_cache_completes}

abbrev canonical : List ℕ → List ℕ
canonical path = path

abbrev app : AppAssetRoots
app = record new_roots { app_root = codes "/app" }

abbrev main : List ℕ
main = codes "/app/js/main.js"

abbrev files : Files
files = record {
  exists = λ path. list_eq path main;
  last_write_time = λ path. 5;
  read_text = λ path. some (codes "let x");
  read_binary = λ path. none;
}

abbrev write : Files → List ℕ → List ℕ → Bool × Files
write files path bytes = (true, files)

abbrev compiler : Compiler
compiler = record {
  is_instantiated = λ m. true;
  create_code_cache = λ m. record { rejected = false; bytes = m ∷ 9 ∷ [] };
}

abbrev key : Key
key = record { path = main; type = JsModuleType.javascript }

abbrev info : Info
info = record new_module_info { type = JsModuleType.javascript; path = main; v8_module = some 3 }

abbrev modules : Map
modules = (key, info) ∷ []

abbrev cache : Cache
cache = (load_script_file canonical app 0 files main []).1

empty_IsValid : IsValid canonical app 0 []
empty_IsValid = record { entries = λ p i e. cc }

cache-IsValid : IsValid canonical app 0 cache
cache-IsValid = (load_script_file-IsValid canonical app 0 files main [] empty_IsValid).valid

info-IsReady : IsReady canonical app 0 write compiler key info
unfolding new_module_info type_eq
info-IsReady = record {
  script_type = refl;
  own = 3;
  has_own = refl;
  instantiated = refl;
  accepted = refl;
}

generated :
    (has_code_cache canonical app 0 main cache ≡ false)
    × (has_code_cache canonical app 0 main
          (generate_code_cache canonical app 0 write compiler modules files cache).1
        ≡ true)
unfolding has_code_cache path_key load_script_file generate_code_cache new_module_info type_eq
generated = (refl, refl)

generate_code_cache-Keeps_example :
    Keeps canonical app 0 write compiler cache
      (generate_code_cache canonical app 0 write compiler modules files cache).1
generate_code_cache-Keeps_example =
    generate_code_cache-Keeps canonical app 0 write compiler modules files cache cache-IsValid

generate_code_cache_completes_example :
    has_code_cache canonical app 0 main
      (generate_code_cache canonical app 0 write compiler modules files cache).1
    ≡ true
unfolding new_module_info load_script_file
generate_code_cache_completes_example =
    generate_code_cache_completes canonical app 0 write compiler modules 0 key info files cache
      (λ f p b. refl) refl info-IsReady cache-IsValid refl
