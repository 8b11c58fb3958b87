-- ===== src/Base/Paths.antt =====
-- The parts of a path, as `std::filesystem::path` of a POSIX system gives them.
use Prim.Native.Nat.{ℕ, zero, suc, ◌-◌}
use mathlib.Core.Bool.{Bool, true, false, not, ◌&&◌, ◌||◌}
use mathlib.Core.List.{List, [], ◌∷◌, ◌++◌}
use v8app.Base.Tests.{◌==◌, ltb, if◌then◌else◌}
use v8app.Base.Lists.{list_eq, take, length}
use v8app.Base.Texts.{codes}

abbrev has_code : ℕ → List ℕ → Bool
has_code c [] = false
has_code c (d ∷ ds) = d == c || has_code c ds

-- `remove_filename`: what stands up to the last separator.
abbrev pub remove_filename : List ℕ → List ℕ
remove_filename [] = []
remove_filename (c ∷ cs) =
    let rest = remove_filename cs in if has_code b'/' (c ∷ cs) then c ∷ rest else []

-- `filename`: what stands behind the last separator.
abbrev pub filename : List ℕ → List ℕ
filename [] = []
filename (c ∷ cs) = let rest = filename cs in if has_code b'/' (c ∷ cs) then rest else c ∷ cs

-- The name from its last dot on, if it has one.
abbrev pub from_dot : List ℕ → List ℕ
from_dot [] = []
from_dot (c ∷ cs) =
    let rest = from_dot cs in if has_code b'.' cs then rest else if c == b'.' then c ∷ cs else []

abbrev pub before_dot : List ℕ → List ℕ
before_dot [] = []
before_dot (c ∷ cs) =
    let rest = before_dot cs in
    if has_code b'.' cs then c ∷ rest else if c == b'.' then [] else c ∷ rest

abbrev is_dots : List ℕ → Bool
is_dots name = list_eq name (codes ".") || list_eq name (codes "..")

-- A dot that begins a name starts no extension, and `.` and `..` have none.
abbrev extension_of : List ℕ → List ℕ
extension_of [] = []
extension_of (c ∷ cs) = if is_dots (c ∷ cs) then [] else from_dot cs

abbrev stem_of : List ℕ → List ℕ
stem_of [] = []
stem_of (c ∷ cs) = if is_dots (c ∷ cs) then c ∷ cs else c ∷ before_dot cs

abbrev pub extension : List ℕ → List ℕ
extension path = extension_of (filename path)

abbrev pub stem : List ℕ → List ℕ
stem path = stem_of (filename path)

abbrev pub is_absolute : List ℕ → Bool
is_absolute [] = false
is_absolute (c ∷ cs) = c == b'/'

abbrev ends_with_separator : List ℕ → Bool
ends_with_separator [] = false
ends_with_separator (c ∷ []) = c == b'/'
ends_with_separator (c ∷ d ∷ cs) = ends_with_separator (d ∷ cs)

-- `operator/`
abbrev pub path_append : List ℕ → List ℕ → List ℕ
path_append [] q = q
path_append (c ∷ p) q =
    if is_absolute q
    then q
    else if ends_with_separator (c ∷ p)
    then c ∷ p ++ q
    else c ∷ p ++ (b'/' ∷ q)

abbrev pub starts_with : List ℕ → List ℕ → Bool
starts_with s [] = true
starts_with [] (c ∷ prefix') = false
starts_with (d ∷ s) (c ∷ prefix') = d == c && starts_with s prefix'

-- The parts between separators.
abbrev names : List ℕ → List ℕ → List (List ℕ)
names part [] = part ∷ []
names part (c ∷ cs) =
    let rest = names [] cs in
    let longer = names (part ++ (c ∷ [])) cs in if c == b'/' then part ∷ rest else longer

-- Several separators are one, and one at the end gives an empty last part.
abbrev squeeze : List (List ℕ) → List (List ℕ)
squeeze [] = []
squeeze (part ∷ []) = part ∷ []
squeeze ([] ∷ other ∷ parts) = squeeze (other ∷ parts)
squeeze ((c ∷ part) ∷ other ∷ parts) = (c ∷ part) ∷ squeeze (other ∷ parts)

-- What a path's iterator runs through: the root directory, if there is one, then the names.
abbrev pub components : List ℕ → List (List ℕ)
components [] = []
components (c ∷ []) = (c ∷ []) ∷ []
components (c ∷ d ∷ cs) =
    if c == b'/' then codes "/" ∷ squeeze (names [] (d ∷ cs)) else squeeze (names [] (c ∷ d ∷ cs))

-- The name in front, or the empty one at the end of a path.
abbrev pub front_or_empty : List (List ℕ) → List ℕ
front_or_empty [] = []
front_or_empty (part ∷ parts) = part

-- What is left of two paths behind what they share.
abbrev mismatch : List (List ℕ) → List (List ℕ) → List (List ℕ) × List (List ℕ)
mismatch [] ys = ([], ys)
mismatch (x ∷ xs) [] = (x ∷ xs, [])
mismatch (x ∷ xs) (y ∷ ys) =
    let rest = mismatch xs ys in if list_eq x y then rest else (x ∷ xs, y ∷ ys)

-- The steps up and the steps down that the parts of a path make.
abbrev ups : List (List ℕ) → ℕ
ups [] = 0
ups (part ∷ parts) = if list_eq part (codes "..") then suc (ups parts) else ups parts

abbrev downs : List (List ℕ) → ℕ
downs [] = 0
downs (part ∷ parts) =
    if list_eq part (codes "..") || (list_eq part [] || list_eq part (codes "."))
    then downs parts
    else suc (downs parts)

abbrev pub join : List ℕ → List (List ℕ) → List ℕ
join p [] = p
join p (part ∷ parts) = join (path_append p part) parts

abbrev climb : ℕ → List ℕ → List ℕ
climb zero p = p
climb (suc n) p = climb n (path_append p (codes ".."))

abbrev relative_of : List (List ℕ) × List (List ℕ) → List ℕ
relative_of (rest, base) =
    if ltb (downs base) (ups base)
    then []
    else if downs base == ups base && list_eq (front_or_empty rest) []
    then codes "."
    else join (climb (downs base - ups base) []) rest

-- `lexically_relative`
abbrev pub lexically_relative : List ℕ → List ℕ → List ℕ
lexically_relative p base =
    if is_absolute p && is_absolute base || not (is_absolute p || is_absolute base)
    then relative_of (mismatch (components p) (components base))
    else []

-- `replace_extension`, with an extension that is given without its dot.
abbrev pub replace_extension : List ℕ → List ℕ → List ℕ
replace_extension path ext = take (length path - length (extension path)) path ++ (b'.' ∷ ext)
