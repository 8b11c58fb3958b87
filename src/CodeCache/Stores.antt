-- ===== src/CodeCache/Stores.antt =====
-- SetCodeCache and the entries of the cache.
use v8app.Base.{
  ℕ, ◌≡◌, refl, ◌∙◌, Bool, true, false, Option, none, some, List, list_eq, list_eq_refl, find,
  ◌>>=◌, if_false,
}
use v8app.Assets.{AppAssetRoots}
use v8app.CodeCache.{
  path_key, ScriptCacheInfo, ScriptCacheInfo, Cache, Files, has_code_cache, set_code_cache,
  found_or_created, written, set_data,
}
use v8app.CodeCache.Entries.{IsOf, IsValid, Entered, kept, found_or_created_lem, find-change}

module _ (canonical : List ℕ → List ℕ) (roots : AppAssetRoots) (epoch : ℕ) where
  abbrev Own : List ℕ → ScriptCacheInfo → Type 0
  Own = IsOf canonical roots epoch

  abbrev Valid : Cache → Type 0
  Valid = IsValid canonical roots epoch

  -- What a store of bytes leaves, with whether it succeeded.
  pub record Stores (path bytes : List ℕ) (cache : Cache) (x : Bool × Files × Cache) : Type 0 where
    pub valid : Valid x.2
    pub stored :
        x.0 ≡ true
        → (has_code_cache canonical roots epoch path x.2 ≡ true)
          × ((find (path_key path) x.2 >>= λ info. info.compiled) ≡ some bytes)
    pub others :
        (p : List ℕ)
        → list_eq (path_key path) (path_key p) ≡ false
        → find (path_key p) x.2 ≡ find (path_key p) cache

  written-Stores :
      (path bytes : List ℕ) (info : ScriptCacheInfo) (cache cache' : Cache) (w : Bool × Files)
      → Entered canonical roots epoch (path_key path) info cache cache'
      → Stores path bytes cache (written canonical roots epoch path bytes info cache' w)
  unfolding written
  written-Stores path bytes info cache cache' (false, files) n = record {
    valid = n.valid;
    stored = λ e. cc;
    others = λ p other. n.others (path_key p) other;
  }
  written-Stores path bytes info cache cache' (true, files) n = record {
    valid =
        kept canonical roots epoch (path_key path) _ info cache' n.here
          (record { own_file = n.own.own_file; own_cached_file = n.own.own_cached_file }) n.valid;
    stored = λ e.
        unfold has_code_cache in
        (
          rw
              (
                find-change (path_key path) (path_key path) _ info cache' n.here,
                list_eq_refl (path_key path),
              )
              refl,
          rw
              (
                find-change (path_key path) (path_key path) _ info cache' n.here,
                list_eq_refl (path_key path),
              )
              refl,
        );
    others = λ p other.
        find-change (path_key path) (path_key p) _ info cache' n.here
        ∙ if_false _ _ _ other
        ∙ n.others (path_key p) other;
  }

  set_data-Stores :
      (write : Files → List ℕ → List ℕ → Bool × Files) (files : Files) (path bytes : List ℕ)
      (cache : Cache) (o : Option (ScriptCacheInfo × Cache))
      → found_or_created canonical roots epoch files path cache (find (path_key path) cache) ≡ o
      → Valid cache
      → Stores path bytes cache (set_data canonical roots epoch write files path bytes cache o)
  unfolding set_data
  set_data-Stores write files path bytes cache none e v = record {
    valid = v;
    stored = λ f. cc;
    others = λ p other. refl;
  }
  set_data-Stores write files path bytes cache (some (info, cache')) e v =
      written-Stores path bytes info cache cache' _
        (found_or_created_lem canonical roots epoch files path info cache cache' _ refl e v)

  -- SetCodeCache with data, on a valid cache, leaves a valid cache whose entries of other scripts are
  -- those from before, and after a success HasCodeCache is true for the script and its data are the
  -- given bytes.
  pub set_code_cache-Stores :
      (write : Files → List ℕ → List ℕ → Bool × Files) (files : Files) (path bytes : List ℕ)
      (cache : Cache)
      → Valid cache
      → Stores path bytes cache
          (set_code_cache canonical roots epoch write files path (some bytes) cache)
  unfolding set_code_cache
  set_code_cache-Stores write files path bytes cache v =
      set_data-Stores write files path bytes cache _ refl v

  -- A script that has an entry is stored, if the write succeeds.
  pub set_code_cache_succeeds :
      (write : Files → List ℕ → List ℕ → Bool × Files) (files : Files) (path bytes : List ℕ)
      (info : ScriptCacheInfo) (cache : Cache)
      → ((f : Files) → (p b : List ℕ) → (write f p b).0 ≡ true)
      → find (path_key path) cache ≡ some info
      → (set_code_cache canonical roots epoch write files path (some bytes) cache).0 ≡ true
  unfolding set_code_cache set_data found_or_created written
  set_code_cache_succeeds write files path bytes info cache writes e =
      rw (e) (
        go (write files (info.cached_file_path) bytes) (writes files (info.cached_file_path) bytes))
    where
      go :
          (w : Bool × Files)
          → w.0 ≡ true
          → (written canonical roots epoch path bytes info cache w).0 ≡ true
      go (true, f) t = refl
      go (false, f) t = t
