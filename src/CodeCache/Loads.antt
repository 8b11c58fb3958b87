-- ===== src/CodeCache/Loads.antt =====
-- LoadScriptFile and the entries of the cache.
use v8app.Base.{
  ℕ, ◌≡◌, refl, sym, subst, Bool, true, false, not, ◌&&◌, inl, inr, Option, none, some, List, arith,
  if◌then◌else◌, ltb, leb, list_eq, find, Bool-cases, if_true, if_false, codes, extension,
}
use v8app.Versions.{is_empty}
use v8app.Assets.{AppAssetRoots}
use v8app.CodeCache.{
  path_key, ScriptCacheInfo, Cache, Files, ScriptSource, Script, failed, script, read_script_file,
  read_cached_data_file, change, generate_cache_path, create_cache_info, source_of, renew,
  first_load, load_created, load_found, load_script_file, reread, emptied, renew_with,
  is_script_root, script_top_of,
}
use v8app.CodeCache.Entries.{
  IsOf, IsValid, read_script_file-IsOf, read_cached_data_file-IsOf, kept, created, dated-IsOf,
}

module _ (canonical : List ℕ → List ℕ) (roots : AppAssetRoots) (epoch : ℕ) where
  abbrev Own : List ℕ → ScriptCacheInfo → Type 0
  Own = IsOf canonical roots epoch

  abbrev Valid : Cache → Type 0
  Valid = IsValid canonical roots epoch

  pub record Loads (path : List ℕ) (x : Script × Cache) : Type 0 where
    pub valid : Valid x.1
    pub own_script : (s : ScriptSource) → x.0 ≡ script s → path_key s.file ≡ path_key path

  fails : (path : List ℕ) (cache : Cache) → Valid cache → Loads path (failed, cache)
  fails path cache v = record { valid = v; own_script = λ s e. cc }

  source_of-Loads :
      (path : List ℕ) (info : ScriptCacheInfo) (cache : Cache)
      → Own (path_key path) info
      → Valid cache
      → Loads path (source_of canonical roots epoch info, cache)
  unfolding source_of
  source_of-Loads path info cache own v =
      let f = own.own_file in record { valid = v; own_script = λ s e. ground arith }

  reread-Loads :
      (files : Files) (path : List ℕ) (info old : ScriptCacheInfo) (cache : Cache)
      (o : Option ScriptCacheInfo)
      → read_script_file files path info ≡ o
      → find (path_key path) cache ≡ some old
      → Own (path_key path) info
      → Valid cache
      → Loads path (reread canonical roots epoch path info cache o)
  unfolding reread
  reread-Loads files path info old cache none r e own v =
      fails path (change (path_key path) info cache)
        (kept canonical roots epoch (path_key path) info old cache e own v)
  reread-Loads files path info old cache (some i) r e own v =
      let own' =
        read_script_file-IsOf canonical roots epoch files path (path_key path) info i r own in
      source_of-Loads path i (change (path_key path) i cache) own'
        (kept canonical roots epoch (path_key path) i old cache e own' v)

  renew-Loads :
      (files : Files) (path : List ℕ) (info old : ScriptCacheInfo) (cache : Cache)
      → find (path_key path) cache ≡ some old
      → Own (path_key path) info
      → Valid cache
      → Loads path (renew canonical roots epoch files path info cache)
  unfolding renew
  renew-Loads files path info old cache e own v =
      elim (Bool-cases (ltb info.last_compiled (files.last_write_time path))) [
        | inl newer ↦ subst (Loads path) (sym (if_true _ _ _ newer)) (
            reread-Loads files path (emptied canonical roots epoch info) old cache _ refl e
              (record { own_file = own.own_file; own_cached_file = own.own_cached_file }) v)
        | inr older ↦ subst (Loads path) (sym (if_false _ _ _ older)) (
            source_of-Loads path info (change (path_key path) info cache) own
              (kept canonical roots epoch (path_key path) info old cache e own v))
      ]

  renew_with-Loads :
      (files : Files) (path : List ℕ) (time : ℕ) (info old : ScriptCacheInfo) (cache : Cache)
      (o : Option ScriptCacheInfo)
      → read_cached_data_file files path info ≡ o
      → find (path_key path) cache ≡ some old
      → Own (path_key path) info
      → Valid cache
      → Loads path (renew_with canonical roots epoch files path time cache o)
  unfolding renew_with
  renew_with-Loads files path time info old cache none r e own v = fails path cache v
  renew_with-Loads files path time info old cache (some i) r e own v =
      renew-Loads files path _ old cache e
        (dated-IsOf canonical roots epoch (path_key path) time i (
          read_cached_data_file-IsOf canonical roots epoch files path (path_key path) info i r own))
        v

  first_load-Loads :
      (files : Files) (path cached : List ℕ) (info : ScriptCacheInfo) (cache : Cache)
      → find (path_key path) cache ≡ some info
      → Own (path_key path) info
      → Valid cache
      → Loads path (first_load canonical roots epoch files path cached info cache)
  unfolding first_load
  first_load-Loads files path cached info cache e own v = elim (Bool-cases (files.exists cached)) [
    | inl there ↦
        subst (Loads path) (sym (if_true _ _ _ there))
          (elim (Bool-cases (leb (files.last_write_time path) (files.last_write_time cached))) [
            | inl fresh ↦ subst (Loads path) (sym (if_true _ _ _ fresh)) (
                renew_with-Loads files path (files.last_write_time cached) info info cache _ refl e
                  own v)
            | inr stale ↦ subst (Loads path) (sym (if_false _ _ _ stale)) (
                renew-Loads files path _ info cache e
                  (dated-IsOf canonical roots epoch (path_key path) (files.last_write_time cached)
                    info own)
                  v)
          ])
    | inr missing ↦
        subst (Loads path) (sym (if_false _ _ _ missing))
          (renew-Loads files path info info cache e own v)
  ]

  abbrev refused : Files → List ℕ → Bool
  refused files path =
      let cached = generate_cache_path canonical roots epoch path in
      files.exists cached && leb (files.last_write_time path) (files.last_write_time cached)

  load_created-Loads :
      (files : Files) (path : List ℕ) (cache : Cache) (o : Option (ScriptCacheInfo × Cache))
      → create_cache_info canonical roots epoch files path cache ≡ o
      → Valid cache
      → Loads path (load_created canonical roots epoch files path cache o)
  unfolding load_created
  load_created-Loads files path cache none e v = elim (Bool-cases (refused files path)) [
    | inl newer ↦ subst (Loads path) (sym (if_true _ _ _ newer)) (fails path cache v)
    | inr other ↦
        subst (Loads path) (sym (if_false _ _ _ other))
          (record { valid = v; own_script = λ s e. cc })
  ]
  load_created-Loads files path cache (some (info, cache')) e v =
      let n = created canonical roots epoch files path info cache cache' e v in
      first_load-Loads files path (generate_cache_path canonical roots epoch path) info cache'
        n.here n.own n.valid

  load_found-Loads :
      (files : Files) (path : List ℕ) (cache : Cache) (o : Option ScriptCacheInfo)
      → find (path_key path) cache ≡ o
      → Valid cache
      → Loads path (load_found canonical roots epoch files path cache o)
  unfolding load_found
  load_found-Loads files path cache none e v = load_created-Loads files path cache _ refl v
  load_found-Loads files path cache (some info) e v =
      renew-Loads files path info info cache e (v.entries (path_key path) info e) v

  if_failed :
      (path : List ℕ) (b : Bool) (cache : Cache) (x : Script × Cache)
      → Valid cache
      → Loads path x
      → Loads path (if b then (failed, cache) else x)
  if_failed path true cache x v l = fails path cache v
  if_failed path false cache x v l = l

  -- LoadScriptFile on a valid cache leaves each entry of the cache under the path of its own script, as
  -- components, with the path of the compiled data that belongs to it, and a script that it gives is of a
  -- path with the components of the path that was asked for.
  pub load_script_file-IsValid :
      (files : Files) (path : List ℕ) (cache : Cache)
      → Valid cache
      → Loads path (load_script_file canonical roots epoch files path cache)
  unfolding load_script_file
  load_script_file-IsValid files path cache v = if_failed path (is_empty path) cache _ v (
      if_failed path
        (not (list_eq (extension path) (codes ".js"))
          && not (list_eq (extension path) (codes ".mjs")))
        cache _ v
        (if_failed path (not (is_script_root (script_top_of canonical roots epoch path))) cache _ v
          (if_failed path (not (files.exists path)) cache _ v (
            if_failed path (is_empty (generate_cache_path canonical roots epoch path)) cache _ v
              (load_found-Loads files path cache _ refl v)))))
