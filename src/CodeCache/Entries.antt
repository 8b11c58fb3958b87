-- ===== src/CodeCache/Entries.antt =====
-- The entries of the cache under the reads and the creation of an info.
use v8app.Base.{
  ℕ, ◌≡◌, refl, sym, subst, ◌∙◌, false, inl, inr, Option, none, some, List, [], ◌∷◌, arith,
  if◌then◌else◌, list_eq, list_eq_iff, find, place, find-place, find-place_same, ◌>>=◌, Bool-cases,
  if_true, if_false,
}
use v8app.Versions.{is_empty}
use v8app.Assets.{AppAssetRoots}
use v8app.CodeCache.{
  path_key, ScriptCacheInfo, Cache, Files, new_cache_info, read_script_file, read_cached_data_file,
  change, generate_cache_path, create_cache_info, dated, enter_info, found_or_created,
}

none_not : {A : Type 0} {a : A} → ¬ (none ≡ some a)
none_not e = cc

some_same : {A : Type 0} {a b : A} → some a ≡ some b → a ≡ b
some_same e = cc

pub find-change :
    (path p : List ℕ) (info old : ScriptCacheInfo) (cache : Cache)
    → find path cache ≡ some old
    → find p (change path info cache) ≡ (if list_eq path p then some info else find p cache)
unfolding change
find-change path p info old [] e = cc
find-change path p info old ((q, i) ∷ cache) e = ground (
  arith,
  list_eq_iff q path,
  list_eq_iff q p,
  list_eq_iff path p,
  find-change path p info old cache,
)

module _ (canonical : List ℕ → List ℕ) (roots : AppAssetRoots) (epoch : ℕ) where
  pub record IsOf (key : List ℕ) (info : ScriptCacheInfo) : Type 0 where
    pub own_file : path_key info.file_path ≡ key
    pub own_cached_file :
        info.cached_file_path ≡ generate_cache_path canonical roots epoch info.file_path

  -- Each entry is of the script under whose path, as components, it stands.
  pub record IsValid (cache : Cache) : Type 0 where
    pub entries : (p : List ℕ) (info : ScriptCacheInfo) → find p cache ≡ some info → IsOf p info

  -- One entry is set, and the others stay.
  updated-IsValid :
      (path : List ℕ) (info : ScriptCacheInfo) (cache cache' : Cache)
      → ((p : List ℕ) → find p cache' ≡ (if list_eq path p then some info else find p cache))
      → IsOf path info
      → IsValid cache
      → IsValid cache'
  updated-IsValid path info cache cache' e own v = record {
    entries = λ p i f. elim (Bool-cases (list_eq path p)) [
      | inl same ↦
          let one = sym (e p ∙ if_true _ _ _ same) ∙ f in
          let info=i : info ≡ i = cc in
          let path=p = (list_eq_iff path p).0 same in
          subst (λ q. IsOf q i) path=p (subst (IsOf path) info=i own)
      | inr other ↦ v.entries p i (sym (e p ∙ if_false _ _ _ other) ∙ f)
    ];
  }

  pub read_script_file-IsOf :
      (files : Files) (path key : List ℕ) (info info' : ScriptCacheInfo)
      → read_script_file files path info ≡ some info'
      → IsOf key info
      → IsOf key info'
  unfolding read_script_file
  read_script_file-IsOf files path key info info' e own = ground arith

  pub read_cached_data_file-IsOf :
      (files : Files) (path key : List ℕ) (info info' : ScriptCacheInfo)
      → read_cached_data_file files path info ≡ some info'
      → IsOf key info
      → IsOf key info'
  unfolding read_cached_data_file
  read_cached_data_file-IsOf files path key info info' e own = ground arith

  pub kept :
      (path : List ℕ) (info old : ScriptCacheInfo) (cache : Cache)
      → find path cache ≡ some old
      → IsOf path info
      → IsValid cache
      → IsValid (change path info cache)
  kept path info old cache e own v =
      updated-IsValid path info cache (change path info cache)
        (λ p. find-change path p info old cache e) own v

  -- An info that stands in a valid cache, with the other entries of the one before.
  pub record Entered (path : List ℕ) (info : ScriptCacheInfo) (cache cache' : Cache) : Type 0 where
    pub own : IsOf path info
    pub valid : IsValid cache'
    pub here : find path cache' ≡ some info
    pub others : (p : List ℕ) → list_eq path p ≡ false → find p cache' ≡ find p cache

  entered :
      (path : List ℕ) (info i : ScriptCacheInfo) (cache cache' : Cache) (o : Option ScriptCacheInfo)
      → find path cache ≡ o
      → enter_info canonical roots epoch path i cache o ≡ some (info, cache')
      → IsOf path i
      → IsValid cache
      → Entered path info cache cache'
  unfolding enter_info
  entered path info i cache cache' (some old) n f own v = absurd (none_not f)
  entered path info i cache cache' none n f own v =
      subst (λ x. Entered path x.0 cache x.1) (some_same f)
        (record {
          own = own;
          valid =
              updated-IsValid path i cache (place path i cache) (λ p. find-place path p i cache n)
                own v;
          here = find-place_same path i cache n;
          others = λ p other. find-place path p i cache n ∙ if_false _ _ _ other;
        })

  pub created :
      (files : Files) (path : List ℕ) (info : ScriptCacheInfo) (cache cache' : Cache)
      → create_cache_info canonical roots epoch files path cache ≡ some (info, cache')
      → IsValid cache
      → Entered (path_key path) info cache cache'
  unfolding create_cache_info
  created files path info cache cache' e v =
      elim (Bool-cases (is_empty (generate_cache_path canonical roots epoch path))) [
        | inl nowhere ↦ absurd (none_not (sym (if_true _ _ _ nowhere) ∙ e))
        | inr somewhere ↦ read _ refl (sym (if_false _ _ _ somewhere) ∙ e)
      ]
    where
      fresh : ScriptCacheInfo
      fresh = new_cache_info epoch path (generate_cache_path canonical roots epoch path)

      fresh_IsOf : IsOf (path_key path) fresh
      fresh_IsOf = unfold new_cache_info in record { own_file = refl; own_cached_file = refl }

      read :
          (o : Option ScriptCacheInfo)
          → read_script_file files path fresh ≡ o
          → (o >>= λ i.
              enter_info canonical roots epoch (path_key path) i cache (find (path_key path) cache))
            ≡ some (info, cache')
          → Entered (path_key path) info cache cache'
      read none r f = absurd (none_not f)
      read (some i) r f =
          entered (path_key path) info i cache cache' _ refl f
            (read_script_file-IsOf files path (path_key path) fresh i r fresh_IsOf) v

  pub dated-IsOf :
      (path : List ℕ) (time : ℕ) (info : ScriptCacheInfo)
      → IsOf path info
      → IsOf path (dated canonical roots epoch time info)
  dated-IsOf path time info own = record {
    own_file = own.own_file;
    own_cached_file = own.own_cached_file;
  }

  pub found_or_created_lem :
      (files : Files) (path : List ℕ) (info : ScriptCacheInfo) (cache cache' : Cache)
      (o : Option ScriptCacheInfo)
      → find (path_key path) cache ≡ o
      → found_or_created canonical roots epoch files path cache o ≡ some (info, cache')
      → IsValid cache
      → Entered (path_key path) info cache cache'
  unfolding found_or_created
  found_or_created_lem files path info cache cache' none e f v =
      created files path info cache cache' f v
  found_or_created_lem files path info cache cache' (some i) e f v =
      subst (λ x. Entered (path_key path) x.0 cache x.1) (some_same f)
        (record {
          own = v.entries (path_key path) i e;
          valid = v;
          here = e;
          others = λ p other. refl;
        })
