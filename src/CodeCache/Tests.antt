-- ===== src/CodeCache/Tests.antt =====
-- Loads and stores of scripts, and the theorems at concrete inputs.
use v8app.Base.{
  ℕ, ◌≡◌, refl, Bool, true, false, Option, none, some, List, [], ◌∷◌, codes, list_eq, if◌then◌else◌,
}
use v8app.Assets.{AppAssetRoots, new_roots}
use v8app.CodeCache.{
  has_code_cache, path_key, Cache, Files, Script, failed, undefined, script, load_script_file,
  set_code_cache,
}
use v8app.CodeCache.Entries.{IsValid}
use v8app.CodeCache.Loads.{Loads, load_script_file-IsValid}

abbrev canonical : List ℕ → List ℕ
canonical path = path

abbrev app : AppAssetRoots
app = record new_roots { app_root = codes "/app" }

abbrev main : List ℕ
main = codes "/app/js/main.js"

abbrev compiled_main : List ℕ
compiled_main = codes "/app/.code_cache/js/main.jscc"

-- The script, written at the given time, and its compiled data, written at another.
abbrev files_at : ℕ → ℕ → Bool → Files
files_at time compiled_time is_compiled = record {
  exists = λ path.
      if list_eq path main then true else if list_eq path compiled_main then is_compiled else false;
  last_write_time = λ path. if list_eq path main then time else compiled_time;
  read_text = λ path. some (codes "let x");
  read_binary = λ path. if list_eq path main then some (codes "let x") else some (9 ∷ 8 ∷ []);
}

abbrev load : Files → List ℕ → Cache → Script × Cache
load = load_script_file canonical app 0

abbrev write : Files → List ℕ → List ℕ → Bool × Files
write files path bytes = (true, files_at 5 7 true)

abbrev store : Files → List ℕ → Option (List ℕ) → Cache → Bool × Files × Cache
store = set_code_cache canonical app 0 write

loaded :
    (load (files_at 5 0 false) main []).0
    ≡ script (record { source = codes "let x"; file = main; cached_data = none })
unfolding load_script_file
loaded = refl

refused :
    ((load (files_at 5 0 false) (codes "/app/js/main.ts") []).0 ≡ failed)
    × ((load (files_at 5 0 false) (codes "/app/resources/main.js") []).0 ≡ failed)
    × ((load (files_at 5 0 false) (codes "/app/js/other.js") []).0 ≡ failed)
unfolding load_script_file
refused = (refl, refl, refl)

-- No tokens are replaced in the path of a script, whether there is such a file or not.
tokens_refused :
    (load (record (files_at 5 0 false) { exists = λ path. true }) (codes "%JS%/main.js") []).0
    ≡ failed
unfolding load_script_file
tokens_refused = refl

-- Paths with the same components are one key.
same_components :
    has_code_cache canonical app 0
      (codes "/app//js/main.js")
      (store (files_at 5 0 false) main (some (9 ∷ 8 ∷ [])) []).2
    ≡ true
unfolding has_code_cache set_code_cache path_key
same_components = refl

-- With compiled data that are newer than the script, the script's own text is passed on as the data.
own_text_as_data :
    (load (files_at 5 7 true) main []).0
    ≡ script (record { source = codes "let x"; file = main; cached_data = some (codes "let x", 5) })
unfolding load_script_file
own_text_as_data = refl

-- A file that cannot be read leaves a null pointer that is used.
null_used : (load (record (files_at 5 0 false) { read_text = λ path. none }) main []).0 ≡ undefined
unfolding load_script_file
null_used = refl

-- What was stored is passed on with the length that was there before.
length_stays :
    let x = store (files_at 5 0 false) main (some (9 ∷ 8 ∷ [])) [] in
    (load x.1 main x.2).0
    ≡ script (record { source = codes "let x"; file = main; cached_data = some (9 ∷ 8 ∷ [], 0) })
unfolding load_script_file set_code_cache
length_stays = refl

empty_IsValid : IsValid canonical app 0 []
empty_IsValid = record { entries = λ p info e. cc }

load_script_file-IsValid_example : Loads canonical app 0 main (load (files_at 5 7 true) main [])
load_script_file-IsValid_example =
    load_script_file-IsValid canonical app 0 (files_at 5 7 true) main [] empty_IsValid
