-- ===== src/CodeCache.antt =====
-- CodeCache (libs/jsRuntime/include/CodeCache.h, src/CodeCache.cc): the scripts that were read, each with
-- what V8 compiled it to. The files are an argument, and a time is a number.
pub mod Entries
pub mod Loads
pub mod Stores
mod Tests
use v8app.Base.{
  ℕ, ◌<◌, ◌≡◌, Bool, true, false, not, ◌&&◌, ◌||◌, Option, none, some, List, [], ◌∷◌, ◌++◌, ◌>>=◌,
  ltb, leb, if◌then◌else◌, length, codes, list_eq, find, place, emplace, extension, components,
  front_or_empty, path_append, replace_extension,
}
use v8app.Versions.{is_empty}
use v8app.Assets.Anchored.{make_relative_path_to_root}
use v8app.Assets.{AppAssetRoots, make_relative_path_to_app_root}

pub record ScriptCacheInfo : Type 0 where
  pub last_compiled : ℕ
  pub source_str : List ℕ
  pub compiled : Option (List ℕ)
  pub compiled_length : ℕ
  pub file_path : List ℕ
  pub cached_file_path : List ℕ

-- `std::map` compares two paths by their components: the key of a path has each of these with its length in
-- front, so that two paths have one key only if they have the same components.
abbrev key_of : List (List ℕ) → List ℕ
key_of [] = []
key_of (name ∷ names) = length name ∷ name ++ key_of names

unfoldable pub path_key : List ℕ → List ℕ
path_key path = key_of (components path)

abbrev pub Cache : Type 0
Cache = List (List ℕ × ScriptCacheInfo)

-- What the file system answers; `none` is a file that cannot be read.
pub record Files : Type 0 where
  pub exists : List ℕ → Bool
  pub last_write_time : List ℕ → ℕ
  pub read_text : List ℕ → Option (List ℕ)
  pub read_binary : List ℕ → Option (List ℕ)

-- The script for V8, with the data to compile it from and their length.
pub record ScriptSource : Type 0 where
  pub source : List ℕ
  pub file : List ℕ
  pub cached_data : Option (List ℕ × ℕ)

-- `failed` is a null pointer, `undefined` the use of one.
pub data Script : Type 0 where
  failed undefined : Script
  script : ScriptSource → Script

-- The fields that `ScriptCacheInfo` begins with; `epoch` is the time that a time begins with.
unfoldable pub new_cache_info : ℕ → List ℕ → List ℕ → ScriptCacheInfo
new_cache_info epoch path cached = record {
  last_compiled = epoch;
  source_str = [];
  compiled = none;
  compiled_length = 0;
  file_path = path;
  cached_file_path = cached;
}

-- `ReadScriptFile` for an info that is there.
unfoldable pub read_script_file : Files → List ℕ → ScriptCacheInfo → Option ScriptCacheInfo
read_script_file files path info =
    if files.exists path
    then (files.read_text path >>= λ text. some (record info { source_str = text }))
    else none

abbrev with_data : ScriptCacheInfo → List ℕ → ScriptCacheInfo
with_data info [] = info
with_data info (b ∷ bytes) = record info {
  compiled = some (b ∷ bytes);
  compiled_length = length (b ∷ bytes);
}

-- `ReadCachedDataFile` for an info that is there.
unfoldable pub read_cached_data_file : Files → List ℕ → ScriptCacheInfo → Option ScriptCacheInfo
read_cached_data_file files path info =
    if files.exists path
    then (files.read_binary path >>= λ bytes. some (with_data info bytes))
    else none

-- An info that is in the map is changed there.
unfoldable pub change : List ℕ → ScriptCacheInfo → Cache → Cache
change key info [] = []
change key info ((k, i) ∷ cache) =
    if list_eq k key then (k, info) ∷ cache else (k, i) ∷ change key info cache

abbrev pub is_script_root : List ℕ → Bool
is_script_root top = list_eq top (codes "js") || list_eq top (codes "modules")

module _ (canonical : List ℕ → List ℕ) (roots : AppAssetRoots) (epoch : ℕ) where
  abbrev pub top_of : List ℕ → List ℕ
  top_of path = front_or_empty (components (make_relative_path_to_app_root canonical roots path))

  -- The root of the test in `LoadScriptFile`, which replaces no tokens.
  abbrev pub script_top_of : List ℕ → List ℕ
  script_top_of path =
      front_or_empty (components (make_relative_path_to_root canonical path (roots.app_root)))

  unfoldable pub generate_cache_path : List ℕ → List ℕ
  unfolding make_relative_path_to_app_root
  generate_cache_path path =
      let relative = make_relative_path_to_app_root canonical roots path in
      if is_script_root (top_of path)
      then replace_extension
          (path_append (path_append (roots.app_root) (codes ".code_cache")) relative) (codes "jscc")
      else []

  unfoldable pub enter_info :
      List ℕ → ScriptCacheInfo → Cache → Option ScriptCacheInfo → Option (ScriptCacheInfo × Cache)
  enter_info key info cache none = some (info, place key info cache)
  enter_info key info cache (some old) = none

  -- `CreateCacheInfo`
  unfoldable pub create_cache_info : Files → List ℕ → Cache → Option (ScriptCacheInfo × Cache)
  unfolding generate_cache_path read_script_file new_cache_info enter_info path_key
  create_cache_info files path cache =
      if is_empty (generate_cache_path path)
      then none
      else (read_script_file files path (new_cache_info epoch path (generate_cache_path path))
          >>= λ info. enter_info (path_key path) info cache (find (path_key path) cache))

  abbrev cached_data_of : ScriptCacheInfo → Option (List ℕ × ℕ)
  cached_data_of info = info.compiled >>= λ bytes. some (bytes, info.compiled_length)

  unfoldable pub source_of : ScriptCacheInfo → Script
  source_of info = script (record {
    source = info.source_str;
    file = info.file_path;
    cached_data = cached_data_of info;
  })

  -- What a new read of the script gives, if it succeeds.
  unfoldable pub reread : List ℕ → ScriptCacheInfo → Cache → Option ScriptCacheInfo → Script × Cache
  unfolding source_of change path_key
  reread path info cache none = (failed, change (path_key path) info cache)
  reread path info cache (some info') = (source_of info', change (path_key path) info' cache)

  abbrev pub emptied : ScriptCacheInfo → ScriptCacheInfo
  emptied info = record info { compiled = none; compiled_length = 0 }

  -- A script that is newer than its compiled data is read again.
  unfoldable pub renew : Files → List ℕ → ScriptCacheInfo → Cache → Script × Cache
  unfolding read_script_file reread path_key
  renew files path info cache =
      if ltb info.last_compiled (files.last_write_time path)
      then reread path (emptied info) cache (read_script_file files path (emptied info))
      else (source_of info, change (path_key path) info cache)

  abbrev pub dated : ℕ → ScriptCacheInfo → ScriptCacheInfo
  dated time info = record info { last_compiled = time }

  unfoldable pub renew_with : Files → List ℕ → ℕ → Cache → Option ScriptCacheInfo → Script × Cache
  unfolding renew
  renew_with files path time cache none = (failed, cache)
  renew_with files path time cache (some info) = renew files path (dated time info) cache

  -- A script that was not read before. The data are read from the path of the script.
  unfoldable pub first_load : Files → List ℕ → List ℕ → ScriptCacheInfo → Cache → Script × Cache
  unfolding renew_with read_cached_data_file
  first_load files path cached info cache =
      let time = files.last_write_time cached in
      if files.exists cached
      then (if leb (files.last_write_time path) time
          then renew_with files path time cache (read_cached_data_file files path info)
          else renew files path (dated time info) cache)
      else renew files path info cache

  -- Without an info the data are refused, or the null pointer is used.
  abbrev without_info : Files → List ℕ → List ℕ → Cache → Script × Cache
  without_info files path cached cache =
      if files.exists cached && leb (files.last_write_time path) (files.last_write_time cached)
      then (failed, cache)
      else (undefined, cache)

  unfoldable pub load_created :
      Files → List ℕ → Cache → Option (ScriptCacheInfo × Cache) → Script × Cache
  unfolding first_load
  load_created files path cache none = without_info files path (generate_cache_path path) cache
  load_created files path cache (some (info, cache')) =
      first_load files path (generate_cache_path path) info cache'

  unfoldable pub load_found : Files → List ℕ → Cache → Option ScriptCacheInfo → Script × Cache
  unfolding load_created create_cache_info
  load_found files path cache none =
      load_created files path cache (create_cache_info files path cache)
  load_found files path cache (some info) = renew files path info cache

  -- `LoadScriptFile`
  unfoldable pub load_script_file : Files → List ℕ → Cache → Script × Cache
  unfolding load_found generate_cache_path make_relative_path_to_app_root make_relative_path_to_root
      path_key
  load_script_file files path cache =
      if is_empty path
      then (failed, cache)
      else if not (list_eq (extension path) (codes ".js"))
          && not (list_eq (extension path) (codes ".mjs"))
      then (failed, cache)
      else if not (is_script_root (script_top_of path))
      then (failed, cache)
      else if not (files.exists path)
      then (failed, cache)
      else if is_empty (generate_cache_path path)
      then (failed, cache)
      else load_found files path cache (find (path_key path) cache)

  abbrev has_data : Option ScriptCacheInfo → Bool
  has_data none = false
  has_data (some info) = elim (info.compiled) [ none ↦ false | some bytes ↦ true ]

  unfoldable pub has_code_cache : List ℕ → Cache → Bool
  has_code_cache path cache = has_data (find (path_key path) cache)

  unfoldable pub found_or_created :
      Files → List ℕ → Cache → Option ScriptCacheInfo → Option (ScriptCacheInfo × Cache)
  unfolding create_cache_info
  found_or_created files path cache none = create_cache_info files path cache
  found_or_created files path cache (some info) = some (info, cache)

  -- What the write of the data's file leaves, with whether it succeeded.
  unfoldable pub written :
      List ℕ → List ℕ → ScriptCacheInfo → Cache → Bool × Files → Bool × Files × Cache
  unfolding change path_key
  written path bytes info cache (false, files) = (false, files, cache)
  written path bytes info cache (true, files) = (
    true,
    files,
    change (path_key path)
        (record info {
          compiled = some bytes;
          last_compiled = files.last_write_time (info.cached_file_path);
        })
        cache,
  )

  unfoldable pub set_data :
      (Files → List ℕ → List ℕ → Bool × Files)
      → Files
      → List ℕ
      → List ℕ
      → Cache
      → Option (ScriptCacheInfo × Cache)
      → Bool × Files × Cache
  unfolding written
  set_data write files path bytes cache none = (false, files, cache)
  set_data write files path bytes cache (some (info, cache')) =
      written path bytes info cache' (write files (info.cached_file_path) bytes)

  -- `SetCodeCache`, where `write` is the write of a file with its directories, which can fail.
  unfoldable pub set_code_cache :
      (Files → List ℕ → List ℕ → Bool × Files)
      → Files
      → List ℕ
      → Option (List ℕ)
      → Cache
      → Bool × Files × Cache
  unfolding set_data found_or_created path_key
  set_code_cache write files path none cache = (false, files, cache)
  set_code_cache write files path (some bytes) cache =
      set_data write files path bytes cache
        (found_or_created files path cache (find (path_key path) cache))
