-- ===== src/Modules/CodeCaching/Cases.antt =====
-- What the entry of a module can do to the code cache.
use v8app.Base.{
  ℕ, ◌≡◌, sym, subst, Bool, false, ◌||◌, Option, none, some, List, if◌then◌else◌, Bool-cases, inl,
  inr, if_true, if_false,
}
use v8app.Versions.{is_empty}
use v8app.Assets.{AppAssetRoots}
use v8app.CodeCache.{Cache, Files, has_code_cache, set_code_cache}
use v8app.Modules.{JsModuleType, type_eq}
use v8app.Modules.Table.{Key}
use v8app.Modules.Tree.{Info}
use v8app.Modules.CodeCaching.{CachedData, Compiler, store_data, cache_module, cache_entry}

module _ (canonical : List ℕ → List ℕ) (roots : AppAssetRoots) (epoch : ℕ)
    (write : Files → List ℕ → List ℕ → Bool × Files) (compiler : Compiler) where
  abbrev has : List ℕ → Cache → Bool
  has = has_code_cache canonical roots epoch

  -- The files and the cache after data are set.
  abbrev pub stored : List ℕ → List ℕ → Files → Cache → Files × Cache
  stored path bytes files cache =
      let x = set_code_cache canonical roots epoch write files path (some bytes) cache in (x.1, x.2)

  store_data_cases :
      (P : Files × Cache → Type 0) (path : List ℕ) (made : CachedData) (files : Files)
      (cache : Cache)
      → P (files, cache)
      → ((bytes : List ℕ) → P (stored path bytes files cache))
      → P (store_data canonical roots epoch write compiler path made files cache)
  unfolding store_data
  store_data_cases P path made files cache same new =
      elim (Bool-cases (made.rejected || is_empty (made.bytes))) [
        | inl holds ↦ subst P (sym (if_true _ _ _ holds)) same
        | inr fails ↦ subst P (sym (if_false _ _ _ fails)) (new (made.bytes))
      ]

  cache_module_cases :
      (P : Files × Cache → Type 0) (path : List ℕ) (own : Option ℕ) (files : Files) (cache : Cache)
      → P (files, cache)
      → ((bytes : List ℕ) → P (stored path bytes files cache))
      → P (cache_module canonical roots epoch write compiler path own files cache)
  unfolding cache_module
  cache_module_cases P path none files cache same new = same
  cache_module_cases P path (some m) files cache same new =
      elim (Bool-cases (compiler.is_instantiated m)) [
        | inl holds ↦
            subst P (sym (if_true _ _ _ holds))
              (store_data_cases P path (compiler.create_code_cache m) files cache same new)
        | inr fails ↦ subst P (sym (if_false _ _ _ fails)) same
      ]

  -- What holds if nothing happens, and if data are set for a script without any, holds after an entry.
  pub cache_entry_cases :
      (P : Files × Cache → Type 0) (key : Key) (info : Info) (files : Files) (cache : Cache)
      → P (files, cache)
      → ((bytes : List ℕ) → has info.path cache ≡ false → P (stored info.path bytes files cache))
      → P (cache_entry canonical roots epoch write compiler key info files cache)
  unfolding cache_entry
  cache_entry_cases P key info files cache same new =
      elim (Bool-cases (type_eq (key.type) JsModuleType.javascript)) [
        | inl holds ↦ subst P (sym (if_true _ _ _ holds)) for_script
        | inr fails ↦ subst P (sym (if_false _ _ _ fails)) same
      ]
    where
      for_script : P (
          if has info.path cache
          then (files, cache)
          else cache_module canonical roots epoch write compiler
              (info.path)
              (info.v8_module)
              files
              cache)
      for_script = elim (Bool-cases (has info.path cache)) [
        | inl holds ↦ subst P (sym (if_true _ _ _ holds)) same
        | inr fails ↦ subst P (sym (if_false _ _ _ fails)) (
            cache_module_cases P (info.path) (info.v8_module) files cache same
              (λ bytes. new bytes fails))
      ]
