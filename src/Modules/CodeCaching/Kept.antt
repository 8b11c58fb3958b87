-- ===== src/Modules/CodeCaching/Kept.antt =====
-- GenerateCodeCache and what is in the cache already.
use v8app.Base.{
  ℕ, ◌≡◌, refl, sym, ◌∙◌, Bool, true, false, some, List, [], ◌∷◌, Bool-cases, inl, inr, list_eq,
  list_eq_iff, find,
}
use v8app.Assets.{AppAssetRoots}
use v8app.CodeCache.{path_key, Cache, Files, has_code_cache, set_code_cache}
use v8app.CodeCache.Entries.{IsValid}
use v8app.CodeCache.Stores.{Stores, set_code_cache-Stores}
use v8app.Modules.Table.{Key}
use v8app.Modules.Tree.{Info, Map}
use v8app.Modules.CodeCaching.{Compiler, cache_entry, generate_code_cache}
use v8app.Modules.CodeCaching.Cases.{stored, cache_entry_cases}

module _ (canonical : List ℕ → List ℕ) (roots : AppAssetRoots) (epoch : ℕ)
    (write : Files → List ℕ → List ℕ → Bool × Files) (compiler : Compiler) where
  -- A later cache is valid, and what was compiled before stays.
  pub record Keeps (cache cache' : Cache) : Type 0 where
    pub valid : IsValid canonical roots epoch cache'
    pub kept :
        (p : List ℕ)
        → has_code_cache canonical roots epoch p cache ≡ true
        → find (path_key p) cache' ≡ find (path_key p) cache

  Keeps-refl : (cache : Cache) → IsValid canonical roots epoch cache → Keeps cache cache
  Keeps-refl cache v = record { valid = v; kept = λ p h. refl }

  pub has_code_cache_same :
      (p : List ℕ) (cache cache' : Cache)
      → find (path_key p) cache' ≡ find (path_key p) cache
      → has_code_cache canonical roots epoch p cache' ≡ has_code_cache canonical roots epoch p cache
  unfolding has_code_cache
  has_code_cache_same p cache cache' e = rw (e) refl

  pub has_same_key :
      (p q : List ℕ) (cache : Cache)
      → path_key p ≡ path_key q
      → has_code_cache canonical roots epoch p cache ≡ has_code_cache canonical roots epoch q cache
  unfolding has_code_cache
  has_same_key p q cache e = rw (e) refl

  Keeps-trans : (a b c : Cache) → Keeps a b → Keeps b c → Keeps a c
  Keeps-trans a b c ab bc = record {
    valid = bc.valid;
    kept = λ p h. bc.kept p (has_code_cache_same p a b (ab.kept p h) ∙ h) ∙ ab.kept p h;
  }

  stored-Keeps :
      (path bytes : List ℕ) (files : Files) (cache : Cache)
      → IsValid canonical roots epoch cache
      → has_code_cache canonical roots epoch path cache ≡ false
      → Keeps cache (stored canonical roots epoch write compiler path bytes files cache).1
  stored-Keeps path bytes files cache v missing = record {
    valid = stores.valid;
    kept = λ p h. elim (Bool-cases (list_eq (path_key path) (path_key p))) [
      | inl same ↦ absurd (
          differ (
            sym missing
            ∙ has_same_key path p cache ((list_eq_iff (path_key path) (path_key p)).0 same)
            ∙ h))
      | inr other ↦ stores.others p other
    ];
  }
    where
      stores :
          Stores canonical roots epoch path bytes cache
            (set_code_cache canonical roots epoch write files path (some bytes) cache)
      stores = set_code_cache-Stores canonical roots epoch write files path bytes cache v

      differ : ¬ (false ≡ true)
      differ e = cc

  pub cache_entry-Keeps :
      (key : Key) (info : Info) (files : Files) (cache : Cache)
      → IsValid canonical roots epoch cache
      → Keeps cache (cache_entry canonical roots epoch write compiler key info files cache).1
  cache_entry-Keeps key info files cache v =
      cache_entry_cases canonical roots epoch write compiler (λ x. Keeps cache x.1) key info files
        cache (Keeps-refl cache v)
        (λ bytes missing. stored-Keeps (info.path) bytes files cache v missing)

  -- GenerateCodeCache keeps a valid cache valid, and changes no entry of a script that has compiled
  -- data already.
  pub generate_code_cache-Keeps :
      (m : Map) (files : Files) (cache : Cache)
      → IsValid canonical roots epoch cache
      → Keeps cache (generate_code_cache canonical roots epoch write compiler m files cache).1
  unfolding generate_code_cache
  generate_code_cache-Keeps [] files cache v = Keeps-refl cache v
  generate_code_cache-Keeps ((key, info) ∷ m) files cache v =
      let first = cache_entry-Keeps key info files cache v in
      Keeps-trans cache _ _ first (generate_code_cache-Keeps m _ _ first.valid)
