-- ===== src/Modules/CodeCaching/Complete.antt =====
-- GenerateCodeCache and the modules that V8 has instantiated.
use v8app.Base.{
  ℕ, ◌≡◌, refl, sym, subst, ◌∙◌, Bool, true, false, ◌||◌, Option, none, some, List, [], ◌∷◌,
  Bool-cases, inl, inr, if_true, if_false, list_eq, list_eq_iff, find, ap, get_elem?, zero, suc,
  arith,
}
use v8app.Versions.{is_empty}
use v8app.Assets.{AppAssetRoots}
use v8app.CodeCache.{path_key, Cache, Files, ScriptCacheInfo, has_code_cache}
use v8app.CodeCache.Entries.{IsValid}
use v8app.CodeCache.Stores.{set_code_cache-Stores, set_code_cache_succeeds}
use v8app.Modules.{JsModuleType, type_eq}
use v8app.Modules.Table.{Key}
use v8app.Modules.Tree.{Info, Map}
use v8app.Modules.CodeCaching.{Compiler, store_data, cache_module, cache_entry, generate_code_cache}
use v8app.Modules.CodeCaching.Cases.{stored, cache_entry_cases}
use v8app.Modules.CodeCaching.Kept.{
  cache_entry-Keeps, generate_code_cache-Keeps, has_code_cache_same,
}

abbrev pub has_entry : Option ScriptCacheInfo → Bool
has_entry none = false
has_entry (some info) = true

differ : ¬ (false ≡ true)
differ e = cc

module _ (canonical : List ℕ → List ℕ) (roots : AppAssetRoots) (epoch : ℕ)
    (write : Files → List ℕ → List ℕ → Bool × Files) (compiler : Compiler) where
  abbrev has : List ℕ → Cache → Bool
  has = has_code_cache canonical roots epoch

  abbrev Writes : Type 0
  Writes = (files : Files) → (path bytes : List ℕ) → (write files path bytes).0 ≡ true

  has_entry_if :
      (p : List ℕ) (cache : Cache) → has p cache ≡ true → has_entry (find (path_key p) cache) ≡ true
  unfolding has_code_cache
  has_entry_if p cache h = ground arith

  stored_has :
      (path bytes : List ℕ) (files : Files) (cache : Cache) (o : Option ScriptCacheInfo)
      → Writes
      → IsValid canonical roots epoch cache
      → find (path_key path) cache ≡ o
      → has_entry o ≡ true
      → has path (stored canonical roots epoch write compiler path bytes files cache).1 ≡ true
  stored_has path bytes files cache none writes v e h = absurd (differ h)
  stored_has path bytes files cache (some info) writes v e h =
      ((set_code_cache-Stores canonical roots epoch write files path bytes cache v).stored (
        set_code_cache_succeeds canonical roots epoch write files path bytes info cache writes e)).0

  stored_grows :
      (path bytes p : List ℕ) (files : Files) (cache : Cache)
      → Writes
      → IsValid canonical roots epoch cache
      → has_entry (find (path_key p) cache) ≡ true
      → has_entry
          (find (path_key p) (stored canonical roots epoch write compiler path bytes files cache).1)
        ≡ true
  stored_grows path bytes p files cache writes v h =
      elim (Bool-cases (list_eq (path_key path) (path_key p))) [
        | inl same ↦
            let e = (list_eq_iff (path_key path) (path_key p)).0 same in
            subst
              (λ k.
                has_entry
                  (find k (stored canonical roots epoch write compiler path bytes files cache).1)
                ≡ true)
              e
              (has_entry_if path _ (
                stored_has path bytes files cache _ writes v refl
                  (subst (λ k. has_entry (find k cache) ≡ true) (sym e) h)))
        | inr other ↦
            ap has_entry (
              (set_code_cache-Stores canonical roots epoch write files path bytes cache v).others p
                other)
            ∙ h
      ]

  entry_grows :
      (key : Key) (info : Info) (files : Files) (cache : Cache) (p : List ℕ)
      → Writes
      → IsValid canonical roots epoch cache
      → has_entry (find (path_key p) cache) ≡ true
      → has_entry (
          find
            (path_key p)
            (cache_entry canonical roots epoch write compiler key info files cache).1)
        ≡ true
  entry_grows key info files cache p writes v h =
      cache_entry_cases canonical roots epoch write compiler
        (λ x. has_entry (find (path_key p) x.1) ≡ true) key info files cache h
        (λ bytes missing. stored_grows (info.path) bytes p files cache writes v h)

  -- A module of a script that V8 has instantiated and makes data of.
  pub record IsReady (key : Key) (info : Info) : Type 0 where
    pub script_type : type_eq (key.type) JsModuleType.javascript ≡ true
    pub own : ℕ
    pub has_own : info.v8_module ≡ some own
    pub instantiated : compiler.is_instantiated own ≡ true
    pub accepted :
        ((compiler.create_code_cache own).rejected
          || is_empty ((compiler.create_code_cache own).bytes))
        ≡ false

  entry_has :
      (key : Key) (info : Info) (files : Files) (cache : Cache)
      → Writes
      → IsReady key info
      → IsValid canonical roots epoch cache
      → has_entry (find (path_key info.path) cache) ≡ true
      → has info.path (cache_entry canonical roots epoch write compiler key info files cache).1
        ≡ true
  unfolding cache_entry cache_module store_data
  entry_has key info files cache writes r v h =
      subst (λ (x : Files × Cache). has info.path x.1 ≡ true) (sym (if_true _ _ _ r.script_type))
        (elim (Bool-cases (has info.path cache)) [
          | inl holds ↦
              subst (λ (x : Files × Cache). has info.path x.1 ≡ true) (sym (if_true _ _ _ holds))
                holds
          | inr fails ↦
              subst (λ (x : Files × Cache). has info.path x.1 ≡ true) (sym (if_false _ _ _ fails))
                (rw (r.has_own, r.instantiated, r.accepted)
                  (stored_has (info.path) _ files cache _ writes v refl h))
        ])

  -- GenerateCodeCache, on a valid cache, gives compiled data to each script module of the map that V8
  -- has instantiated and makes data of, where the cache has an entry for its path and every write of a
  -- file succeeds.
  pub generate_code_cache_completes :
      (m : Map) (i : ℕ) (key : Key) (info : Info) (files : Files) (cache : Cache)
      → ((files : Files) → (path bytes : List ℕ) → (write files path bytes).0 ≡ true)
      → get_elem? m i ≡ some (key, info)
      → IsReady key info
      → IsValid canonical roots epoch cache
      → has_entry (find (path_key info.path) cache) ≡ true
      → has info.path (generate_code_cache canonical roots epoch write compiler m files cache).1
        ≡ true
  unfolding generate_code_cache
  generate_code_cache_completes [] i key info files cache writes e r v h = cc
  generate_code_cache_completes ((k, a) ∷ m) zero key info files cache writes e r v h =
      let same : (k, a) ≡ (key, info) = cc in
      let first = cache_entry-Keeps canonical roots epoch write compiler k a files cache v in
      let there : has info.path (cache_entry canonical roots epoch write compiler k a files cache).1
          ≡ true =
        subst
          (λ (x : Key × Info).
            has info.path (cache_entry canonical roots epoch write compiler x.0 x.1 files cache).1
            ≡ true)
          (sym same) (entry_has key info files cache writes r v h) in
      has_code_cache_same canonical roots epoch write compiler (info.path) _ _ (
        (generate_code_cache-Keeps canonical roots epoch write compiler m _ _ first.valid).kept
          (info.path) there)
      ∙ there
  generate_code_cache_completes ((k, a) ∷ m) (suc i) key info files cache writes e r v h =
      generate_code_cache_completes m i key info _ _ writes e r
        (cache_entry-Keeps canonical roots epoch write compiler k a files cache v).valid
        (entry_grows k a files cache (info.path) writes v h)
