-- ===== src/Versions/Parse.antt =====
-- `ParseVersionString`, whose regular expression is a semantic version: three numbers, then a pre-release
-- after the first `-` and a build after the first `+`, both of which are parts between dots.
pub mod Numbers
pub mod RoundTrip
mod Tests
use v8app.Base.{
  ℕ, zero, suc, ◌≡◌, refl, Bool, true, false, not, ◌&&◌, ◌||◌, Option, none, some, List, [], ◌∷◌,
  ◌++◌, arith, leb, ◌==◌, if◌then◌else◌, ℤ,
}
use v8app.Versions.{
  VersionString, is_digit, all_digits, is_empty, convert_string_to_int, split,
  generate_version_string,
}

-- A text up to the first `c`, and what follows it.
unfoldable pub cut : ℕ → List ℕ → List ℕ × Option (List ℕ)
cut c [] = ([], none)
cut c (d ∷ ds) = let (front, rest) = cut c ds in if d == c then ([], some ds) else (d ∷ front, rest)

-- `0|[1-9]\d*`
abbrev pub is_core : List ℕ → Bool
is_core [] = false
is_core (c ∷ cs) = if c == b'0' then is_empty cs else is_digit c && all_digits cs

-- `[0-9a-zA-Z-]`
abbrev is_word : ℕ → Bool
is_word c = is_digit c || leb b'a' c && leb c b'z' || leb b'A' c && leb c b'Z' || c == b'-'

abbrev all_words : List ℕ → Bool
all_words [] = true
all_words (c ∷ cs) = is_word c && all_words cs

abbrev pub is_build_part : List ℕ → Bool
is_build_part part = not (is_empty part) && all_words part

-- `0|[1-9]\d*|\d*[a-zA-Z-][0-9a-zA-Z-]*`
abbrev pub is_pre_part : List ℕ → Bool
is_pre_part part = is_core part || is_build_part part && not (all_digits part)

abbrev pub every : (List ℕ → Bool) → List (List ℕ) → Bool
every p [] = true
every p (x ∷ xs) = p x && every p xs

-- An optional group.
unfoldable pub group_matches : (List ℕ → Bool) → Option (List ℕ) → Bool
group_matches p none = true
group_matches p (some group) = every p (split [] group)

-- `str()` of a group: empty if it did not take part.
abbrev pub group_str : Option (List ℕ) → List ℕ
group_str none = []
group_str (some group) = group

pub record Matches : Type 0 where
  pub major : List ℕ
  pub minor : List ℕ
  pub patch : List ℕ
  pub pre_release : Option (List ℕ)
  pub build : Option (List ℕ)

unfoldable pub core_matches : List (List ℕ) → Option (List ℕ) → Option (List ℕ) → Option Matches
core_matches (x ∷ y ∷ z ∷ []) pre build =
    if is_core x
      && (is_core y
          && (is_core z && (group_matches is_pre_part pre && group_matches is_build_part build)))
    then some (record { major = x; minor = y; patch = z; pre_release = pre; build = build })
    else none
core_matches _ pre build = none

-- `std::regex_match`.
unfoldable pub regex_match : List ℕ → Option Matches
unfolding cut core_matches group_matches
regex_match s =
    let (front, build) = cut b'+' s in
    let (core, pre) = cut b'-' front in core_matches (split [] core) pre build

-- What a match, or its absence, makes of the object.
unfoldable pub take_matches : VersionString → Option Matches → VersionString
take_matches v none = record v { valid = false }
take_matches v (some m) = generate_version_string (record v {
  major = convert_string_to_int (m.major);
  minor = convert_string_to_int (m.minor);
  patch = convert_string_to_int (m.patch);
  pre_release = group_str (m.pre_release);
  build = group_str (m.build);
  valid = true;
})

pub parse_version_string : VersionString → VersionString
unfolding regex_match take_matches
parse_version_string v = take_matches v (regex_match v.version)

unfoldable pub set_version_string : List ℕ → VersionString → Bool × VersionString
unfolding parse_version_string
set_version_string s v = let v' = parse_version_string (record v { version = s }) in (v'.valid, v')

abbrev is_some : Option Matches → Bool
is_some none = false
is_some (some m) = true

unfoldable pub has_match : List ℕ → Bool
unfolding regex_match
has_match s = is_some (regex_match s)

valid-take_matches : (v : VersionString) (m : Option Matches) → (take_matches v m).valid ≡ is_some m
unfolding take_matches
valid-take_matches v none = refl
valid-take_matches v (some m) = unfold generate_version_string in refl

-- Whether a text makes a version valid does not depend on what the object was.
pub valid-set_version_string :
    (s : List ℕ) (v : VersionString) → (set_version_string s v).1.valid ≡ has_match s
unfolding set_version_string parse_version_string has_match
valid-set_version_string s v = valid-take_matches (record v { version = s }) (regex_match s)
