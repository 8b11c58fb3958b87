-- ===== src/Assets/Anchored.antt =====
-- Utils/Paths.cc: paths that are anchored at a root. `canonical` is `std::filesystem::weakly_canonical`. On
-- a POSIX system no path has a root name.
use v8app.Base.{
  ℕ, zero, suc, Bool, true, false, not, ◌&&◌, ◌||◌, Option, none, some, List, [], ◌∷◌, ◌++◌, ◌==◌,
  if◌then◌else◌, list_eq, drop, take, length, path_append, starts_with, lexically_relative,
  is_absolute,
}

abbrev has_char : ℕ → List ℕ → Bool
has_char c [] = false
has_char c (d ∷ ds) = d == c || has_char c ds

abbrev one_more : Option ℕ → Option ℕ
one_more none = none
one_more (some n) = some (suc n)

-- `find_first_of` of one character from a position on.
abbrev find_from : ℕ → ℕ → List ℕ → Option ℕ
find_from c pos [] = none
find_from c zero (d ∷ ds) =
    let rest = one_more (find_from c zero ds) in if d == c then some 0 else rest
find_from c (suc pos) (d ∷ ds) = one_more (find_from c pos ds)

-- The end of `\\server\share` at the front of a path.
abbrev unc_end : List ℕ → ℕ → ℕ
unc_end path start = elim (find_from b'\\' 3 path) [
  | none ↦ start
  | some pos ↦ elim (find_from b'\\' (suc pos) path) [ none ↦ start | some end ↦ end ]
]

-- `inPath[1] == ':'`
abbrev is_drive : List ℕ → Bool
is_drive [] = false
is_drive (c ∷ []) = false
is_drive (c ∷ d ∷ path) = d == b':'

abbrev prefix_length : List ℕ → ℕ
prefix_length path =
    if has_char b'\\' path
    then (let start = if is_drive path then 2 else 0 in
        if list_eq (take 2 path) (b'\\' ∷ b'\\' ∷ []) then unc_end path start else start)
    else 0

unfoldable pub extract_windows_unc : List ℕ → List ℕ
extract_windows_unc path = take (prefix_length path) path

-- The loop of `NormalizePath`: a backslash that escapes a space stays.
abbrev convert : List ℕ → List ℕ
convert [] = []
convert (c ∷ []) = (if c == b'\\' then b'/' else c) ∷ []
convert (c ∷ d ∷ path) = (if c == b'\\' && not (d == b' ') then b'/' else c) ∷ convert (d ∷ path)

unfoldable pub normalize_path : List ℕ → Bool → List ℕ
unfolding extract_windows_unc
normalize_path path remove_drive =
    let drive = extract_windows_unc path in
    (if remove_drive then [] else drive) ++ convert (drop (length drive) path)

abbrev without_root : List ℕ → List ℕ
without_root path = if is_absolute path then drop 1 path else path

abbrev strip : List ℕ → List ℕ → List ℕ
strip path root =
    if is_absolute path
    then without_root (if starts_with path root then drop (length root) path else path)
    else path

unfoldable pub make_relative_path_to_root : (List ℕ → List ℕ) → List ℕ → List ℕ → List ℕ
unfolding normalize_path
make_relative_path_to_root canonical path root =
    let root' = normalize_path root true in
    let path' = canonical (path_append root' (strip (normalize_path path true) root')) in
    if not (starts_with path' root') then [] else lexically_relative path' root'

abbrev strip_other : List ℕ → List ℕ → List ℕ
strip_other path root =
    if is_absolute path && not (starts_with path root) then drop 1 path else path

unfoldable pub make_absolute_path_to_root : (List ℕ → List ℕ) → List ℕ → List ℕ → List ℕ
unfolding normalize_path extract_windows_unc
make_absolute_path_to_root canonical path root =
    let root' = normalize_path root true in
    let path' = canonical (path_append root' (strip_other (normalize_path path true) root')) in
    if not (starts_with path' root') then [] else extract_windows_unc root ++ path'
