-- ===== src/Modules/CodeCaching.antt =====
-- JSContextModules::GenerateCodeCache (JSContextModules.cc): the code cache is given what V8 compiled the
-- modules of a context to. What V8 answers is an argument.
mod Cases
mod Kept
mod Complete
mod Tests
use v8app.Base.{ℕ, Bool, true, false, ◌||◌, Option, none, some, List, [], ◌∷◌, if◌then◌else◌}
use v8app.Versions.{is_empty}
use v8app.Assets.{AppAssetRoots}
use v8app.CodeCache.{Cache, Files, has_code_cache, set_code_cache}
use v8app.Modules.{JsModuleType, type_eq}
use v8app.Modules.Table.{Key}
use v8app.Modules.Tree.{Info, Map}

-- The data that V8 makes of a module's script.
pub record CachedData : Type 0 where
  pub rejected : Bool
  pub bytes : List ℕ

pub record Compiler : Type 0 where
  pub is_instantiated : ℕ → Bool
  pub create_code_cache : ℕ → CachedData

module _ (canonical : List ℕ → List ℕ) (roots : AppAssetRoots) (epoch : ℕ)
    (write : Files → List ℕ → List ℕ → Bool × Files) (compiler : Compiler) where
  unfoldable pub store_data : List ℕ → CachedData → Files → Cache → Files × Cache
  unfolding set_code_cache
  store_data path made files cache =
      if made.rejected || is_empty (made.bytes)
      then (files, cache)
      else (let x =
            set_code_cache canonical roots epoch write files path (some (made.bytes)) cache in
          (x.1, x.2))

  unfoldable pub cache_module : List ℕ → Option ℕ → Files → Cache → Files × Cache
  unfolding store_data
  cache_module path none files cache = (files, cache)
  cache_module path (some m) files cache =
      if compiler.is_instantiated m
      then store_data path (compiler.create_code_cache m) files cache
      else (files, cache)

  unfoldable pub cache_entry : Key → Info → Files → Cache → Files × Cache
  unfolding cache_module has_code_cache type_eq
  cache_entry key info files cache =
      if type_eq (key.type) JsModuleType.javascript
      then (if has_code_cache canonical roots epoch (info.path) cache
          then (files, cache)
          else cache_module (info.path) (info.v8_module) files cache)
      else (files, cache)

  -- `GenerateCodeCache`
  unfoldable pub generate_code_cache : Map → Files → Cache → Files × Cache
  unfolding cache_entry
  generate_code_cache [] files cache = (files, cache)
  generate_code_cache ((key, info) ∷ m) files cache =
      let (files', cache') = cache_entry key info files cache in generate_code_cache m files' cache'
