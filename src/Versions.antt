-- ===== src/Versions.antt =====
-- VersionString (libs/core/include/Utils/VersionString.h, src/Utils/VersionString.cc): the semantic
-- version that a text is parsed to, the text that is made of one, and the comparison.
pub mod Parse
pub mod Order
pub mod Transitive
pub mod Equality
pub mod Wire
mod Tests
use v8app.Base.{
  ℕ, zero, suc, ◌+◌, ◌-◌, ◌*◌, ◌/◌, ◌%◌, ◌^◌, ◌≡◌, Bool, true, false, not, ◌&&◌, ◌||◌, Option, none,
  some, List, [], ◌∷◌, ◌++◌, arith, ltb, leb, ◌==◌, list_eq, text_ltb, if◌then◌else◌, codes, ℤ, pos,
  negsuc, int_ltb, ◌>>=◌,
}

pub record VersionString : Type 0 where
  pub version : List ℕ
  pub valid : Bool
  pub major : ℤ
  pub minor : ℤ
  pub patch : ℤ
  pub pre_release : List ℕ
  pub build : List ℕ

unfoldable pub new_version : VersionString
new_version = record {
  version = [];
  valid = false;
  major = negsuc 0;
  minor = negsuc 0;
  patch = negsuc 0;
  pre_release = [];
  build = [];
}

abbrev pub is_digit : ℕ → Bool
is_digit c = leb b'0' c && leb c b'9'

abbrev pub all_digits : List ℕ → Bool
all_digits [] = true
all_digits (c ∷ cs) = is_digit c && all_digits cs

abbrev pub is_empty : List ℕ → Bool
is_empty [] = true
is_empty (c ∷ cs) = false

abbrev pub is_number : List ℕ → Bool
is_number value = not (is_empty value) && all_digits value

-- The number that decimal digits stand for, `n` being the one before them.
pub value_from : ℕ → List ℕ → ℕ
value_from n [] = n
value_from n (c ∷ cs) = value_from (n * 10 + (c - b'0')) cs

-- `ConvertStringToInt`, for digits only: `std::stoi` fails on a number that is no `int`.
pub convert_string_to_int : List ℕ → ℤ
unfolding value_from
convert_string_to_int [] = pos 0
convert_string_to_int (c ∷ cs) =
    if ltb (value_from 0 (c ∷ cs)) (2 ^ 31) then pos (value_from 0 (c ∷ cs)) else negsuc 0

-- `std::to_string`, with rounds for the digits.
pub digits : ℕ → ℕ → List ℕ → List ℕ
digits zero n tail = tail
digits (suc rounds) n tail =
    let rest = digits rounds (n / 10) ((b'0' + n % 10) ∷ tail) in
    if ltb n 10 then (b'0' + n) ∷ tail else rest

pub to_string : ℕ → List ℕ
unfolding digits
to_string n = digits (n + 1) n []

-- What `GenerateVersionString` puts behind the numbers.
abbrev suffix : VersionString → List ℕ
suffix v =
    (if is_empty v.pre_release then [] else codes "-" ++ v.pre_release)
    ++ (if is_empty v.build then [] else codes "+" ++ v.build)

-- The text of a version: empty if a number is negative.
pub generate : VersionString → ℤ → ℤ → ℤ → List ℕ
generate v (pos major) (pos minor) (pos patch) =
    to_string major
    ++ (codes "." ++ (to_string minor ++ (codes "." ++ (to_string patch ++ suffix v))))
generate v (pos major) (pos minor) (negsuc n) = []
generate v (pos major) (negsuc n) patch = []
generate v (negsuc n) minor patch = []

pub generate_version_string : VersionString → VersionString
unfolding generate
generate_version_string v = record v { version = generate v (v.major) (v.minor) (v.patch) }

unfoldable set_major : ℤ → VersionString → VersionString
unfolding generate_version_string
set_major major v = generate_version_string (record v { major = major })

unfoldable set_minor : ℤ → VersionString → VersionString
unfolding generate_version_string
set_minor minor v = generate_version_string (record v { minor = minor })

unfoldable set_patch : ℤ → VersionString → VersionString
unfolding generate_version_string
set_patch patch v = generate_version_string (record v { patch = patch })

unfoldable set_pre_release : List ℕ → VersionString → VersionString
unfolding generate_version_string
set_pre_release pre_release v = generate_version_string (record v { pre_release = pre_release })

unfoldable set_build : List ℕ → VersionString → VersionString
unfolding generate_version_string
set_build build v = generate_version_string (record v { build = build })

-- What a comparison returns.
abbrev pub less : ℤ
less = negsuc 0

abbrev pub equal : ℤ
equal = pos 0

abbrev pub greater : ℤ
greater = pos 1

-- The parts of a text between dots; `sregex_token_iterator` leaves out a last part that is empty, unless
-- it is the only one.
unfoldable pub split : List ℕ → List ℕ → List (List ℕ)
split part [] = part ∷ []
split part (c ∷ cs) =
    let rest = split [] cs in
    let longer = split (part ++ (c ∷ [])) cs in if c == b'.' then part ∷ rest else longer

abbrev drop_empty : List (List ℕ) → List (List ℕ)
drop_empty [] = []
drop_empty (part ∷ []) = if is_empty part then [] else part ∷ []
drop_empty (part ∷ other ∷ parts) = part ∷ drop_empty (other ∷ parts)

pub tokens : List ℕ → List (List ℕ)
tokens s = elim (split [] s) [ [] ↦ [] | part ∷ parts ↦ part ∷ drop_empty parts ]

abbrev pub by_text : List ℕ → List ℕ → ℤ → ℤ
by_text left right rest =
    if text_ltb left right then less else if text_ltb right left then greater else rest

abbrev pub by_int : ℤ → ℤ → ℤ → ℤ
by_int left right rest =
    if int_ltb left right then less else if int_ltb right left then greater else rest

-- One round of the loop over the parts, with what the other rounds come to.
pub compare_token : List ℕ → List ℕ → ℤ → ℤ
compare_token left right rest =
    if is_number left && is_number right
    then by_int (convert_string_to_int left) (convert_string_to_int right) (by_text left right rest)
    else if is_number left && not (is_number right)
    then less
    else if not (is_number left) && is_number right
    then greater
    else by_text left right rest

pub compare_tokens : List (List ℕ) → List (List ℕ) → ℤ
unfolding compare_token
compare_tokens [] [] = equal
compare_tokens [] (y ∷ ys) = less
compare_tokens (x ∷ xs) [] = greater
compare_tokens (x ∷ xs) (y ∷ ys) = compare_token x y (compare_tokens xs ys)

pub compare_versions : VersionString → VersionString → ℤ
unfolding compare_tokens
compare_versions a b =
    if not a.valid
    then less
    else if not b.valid
    then greater
    else by_int (a.major) (b.major) (
        by_int (a.minor) (b.minor) (
          by_int (a.patch) (b.patch) (
            if not (is_empty a.pre_release) && is_empty b.pre_release
            then less
            else if is_empty a.pre_release && not (is_empty b.pre_release)
            then greater
            else compare_tokens (tokens (a.pre_release)) (tokens (b.pre_release)))))
