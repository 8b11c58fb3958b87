-- ===== src/Versions/Parse/RoundTrip.antt =====
-- The text that a version is parsed from is the text that it prints.
use v8app.Base.{
  ℕ, ◌^◌, ◌≡◌, ◌≤◌, ◌<◌, refl, sym, ap, ◌∙◌, Bool, true, false, Option, none, some, List, [], ◌∷◌,
  ◌++◌, arith, ◌==◌, if◌then◌else◌, if_true, if_false, inl, inr, append_assoc, append-nil, pos,
  negsuc, Bool-cases,
}
use v8app.Versions.{
  VersionString, is_empty, value_from, convert_string_to_int, split, generate,
  generate_version_string,
}
use v8app.Versions.Parse.{
  cut, is_core, is_pre_part, is_build_part, group_matches, group_str, Matches, core_matches,
  regex_match, parse_version_string, set_version_string, take_matches,
}
use v8app.Versions.Parse.Numbers.{to_string-value}

-- A text and the group behind the separator `c`.
abbrev joined : ℕ → List ℕ × Option (List ℕ) → List ℕ
joined c (front, none) = front
joined c (front, some rest) = front ++ (c ∷ rest)

cut-joined : (c : ℕ) (s : List ℕ) → joined c (cut c s) ≡ s
unfolding cut
cut-joined c [] = refl
cut-joined c (d ∷ ds) = ground (arith, cut-joined c ds)

-- Parts with dots between them.
abbrev dotted : List (List ℕ) → List ℕ
dotted [] = []
dotted (x ∷ []) = x
dotted (x ∷ y ∷ zs) = x ++ (b'.' ∷ dotted (y ∷ zs))

split_cons : (part s : List ℕ) → (x : List ℕ) × (xs : List (List ℕ)) × (split part s ≡ x ∷ xs)
unfolding split
split_cons part [] = (part, [], refl)
split_cons part (c ∷ cs) = elim (Bool-cases (c == b'.')) [
  | inl dot ↦ (part, split [] cs, ground arith)
  | inr other ↦ let (x, xs, e) = split_cons (part ++ (c ∷ [])) cs in (x, xs, ground (arith, e))
]

split-dotted : (part s : List ℕ) → dotted (split part s) ≡ part ++ s
unfolding split
split-dotted part [] = sym (append-nil part)
split-dotted part (c ∷ cs) = elim (Bool-cases (c == b'.')) [
  | inl dot ↦
      let (x, xs, e) = split_cons [] cs in
      let d : c ≡ b'.' = ground arith in
      let t : dotted (x ∷ xs) ≡ cs = ap dotted (sym e) ∙ split-dotted [] cs in
      rw (if_true (c == b'.') _ _ dot) (rw (e, d) (ap (λ l. part ++ (b'.' ∷ l)) t))
  | inr other ↦
      rw (if_false (c == b'.') _ _ other)
        (split-dotted (part ++ (c ∷ [])) cs ∙ append_assoc part (c ∷ []) cs)
]

-- A group with its separator.
abbrev group_text : ℕ → Option (List ℕ) → List ℕ
group_text c none = []
group_text c (some group) = c ∷ group

joined-group :
    (c : ℕ) (front : List ℕ) (rest : Option (List ℕ))
    → joined c (front, rest) ≡ front ++ group_text c rest
joined-group c front none = sym (append-nil front)
joined-group c front (some rest) = refl

-- What a match says.
record IsMatch (parts : List (List ℕ)) (pre build : Option (List ℕ)) (m : Matches) : Type 0 where
  core : parts ≡ m.major ∷ m.minor ∷ m.patch ∷ []
  pre_is : m.pre_release ≡ pre
  build_is : m.build ≡ build
  major : is_core m.major ≡ true
  minor : is_core m.minor ≡ true
  patch : is_core m.patch ≡ true
  pre_matches : group_matches is_pre_part pre ≡ true
  build_matches : group_matches is_build_part build ≡ true

core_matches-IsMatch :
    (parts : List (List ℕ)) (pre build : Option (List ℕ)) (m : Matches)
    → core_matches parts pre build ≡ some m
    → IsMatch parts pre build m
unfolding core_matches
core_matches-IsMatch [] pre build m h = cc
core_matches-IsMatch (x ∷ []) pre build m h = cc
core_matches-IsMatch (x ∷ y ∷ []) pre build m h = cc
core_matches-IsMatch (x ∷ y ∷ z ∷ []) pre build m h = record {
  core = ground arith;
  pre_is = ground arith;
  build_is = ground arith;
  major = ground arith;
  minor = ground arith;
  patch = ground arith;
  pre_matches = ground arith;
  build_matches = ground arith;
}
core_matches-IsMatch (x ∷ y ∷ z ∷ w ∷ ws) pre build m h = cc

-- A group that matches is not empty.
group-text :
    (c : ℕ) (p : List ℕ → Bool) (group : Option (List ℕ))
    → p [] ≡ false
    → group_matches p group ≡ true
    → (if is_empty (group_str group) then [] else (c ∷ []) ++ group_str group) ≡ group_text c group
unfolding group_matches split
group-text c p none e h = refl
group-text c p (some []) e h = ground arith
group-text c p (some (d ∷ ds)) e h = refl

-- A matched text is its numbers with dots between them and its groups.
matched_shape :
    (s : List ℕ) (m : Matches)
    → regex_match s ≡ some m
    → IsMatch (m.major ∷ m.minor ∷ m.patch ∷ []) (m.pre_release) (m.build) m
      × (s
          ≡ dotted (m.major ∷ m.minor ∷ m.patch ∷ [])
            ++ (group_text b'-' (m.pre_release) ++ group_text b'+' (m.build)))
unfolding regex_match
matched_shape s m h =
    let p = cut b'+' s in
    let q = cut b'-' p.0 in
    let k = core_matches-IsMatch (split [] q.0) q.1 p.1 m h in
    let core : dotted (m.major ∷ m.minor ∷ m.patch ∷ []) ≡ q.0 =
      ap dotted (sym k.core) ∙ split-dotted [] q.0 in
    let front : q.0 ++ group_text b'-' q.1 ≡ p.0 =
      sym (joined-group b'-' q.0 q.1) ∙ cut-joined b'-' p.0 in
    let all : p.0 ++ group_text b'+' p.1 ≡ s =
      sym (joined-group b'+' p.0 p.1) ∙ cut-joined b'+' s in
    (
      record {
        core = refl;
        pre_is = refl;
        build_is = refl;
        major = k.major;
        minor = k.minor;
        patch = k.patch;
        pre_matches = rw k.pre_is k.pre_matches;
        build_matches = rw k.build_is k.build_matches;
      },
      rw (k.pre_is, k.build_is, core)
          (sym (ap (λ l. l ++ group_text b'+' p.1) front ∙ all)
            ∙ append_assoc q.0 (group_text b'-' q.1) (group_text b'+' p.1)),
    )

-- A number of a match that is an `int`.
convert-fits :
    (t : List ℕ)
    → is_core t ≡ true
    → value_from 0 t < 2 ^ 31
    → convert_string_to_int t ≡ pos (value_from 0 t)
unfolding convert_string_to_int
convert-fits [] c h = cc
convert-fits (x ∷ xs) c h = ground arith

convert-overflows :
    (t : List ℕ) → is_core t ≡ true → 2 ^ 31 ≤ value_from 0 t → convert_string_to_int t ≡ negsuc 0
unfolding convert_string_to_int
convert-overflows [] c h = cc
convert-overflows (x ∷ xs) c h = ground arith

set_version_string-match :
    (s : List ℕ) (v : VersionString) (m : Matches)
    → regex_match s ≡ some m
    → set_version_string s v ≡ (true, take_matches (record v { version = s }) (some m))
unfolding set_version_string parse_version_string regex_match take_matches generate_version_string
set_version_string-match s v m h =
    ap (λ o. let v' = take_matches (record v { version = s }) o in (v'.valid, v')) h

-- What is printed when the three numbers are not negative.
generate-match :
    (v : VersionString) (m : Matches)
    → IsMatch (m.major ∷ m.minor ∷ m.patch ∷ []) (m.pre_release) (m.build) m
    → v.pre_release ≡ group_str m.pre_release
    → v.build ≡ group_str m.build
    → generate v
        (pos (value_from 0 m.major))
        (pos (value_from 0 m.minor))
        (pos (value_from 0 m.patch))
      ≡ dotted (m.major ∷ m.minor ∷ m.patch ∷ [])
        ++ (group_text b'-' (m.pre_release) ++ group_text b'+' (m.build))
unfolding generate
generate-match v m k e f =
    let pre = group-text b'-' is_pre_part (m.pre_release) refl k.pre_matches in
    let build = group-text b'+' is_build_part (m.build) refl k.build_matches in
    rw
      (
        e,
        f,
        to_string-value (m.major) k.major,
        to_string-value (m.minor) k.minor,
        to_string-value (m.patch) k.patch,
        pre,
        build,
        append_assoc (m.major),
        append_assoc (m.minor),
      )
      refl

-- A text that is a version with numbers below 2^31 makes the object valid, and is what it then prints.
pub set_version_string-get :
    (s : List ℕ) (v : VersionString) (m : Matches)
    → regex_match s ≡ some m
    → value_from 0 m.major < 2 ^ 31
    → value_from 0 m.minor < 2 ^ 31
    → value_from 0 m.patch < 2 ^ 31
    → ((set_version_string s v).0 ≡ true) × ((set_version_string s v).1.version ≡ s)
unfolding take_matches generate_version_string generate
set_version_string-get s v m h a b c =
    let (k, text) = matched_shape s m h in
    rw
      (
        set_version_string-match s v m h,
        convert-fits (m.major) k.major a,
        convert-fits (m.minor) k.minor b,
        convert-fits (m.patch) k.patch c,
      )
      (
        refl,
        generate-match
              (record v { pre_release = group_str (m.pre_release); build = group_str (m.build) }) m
              k refl refl
            ∙ sym text,
      )

-- A text that is a version whose first number is no `int` makes the object valid too, but what it then
-- prints is empty.
pub set_version_string-overflow :
    (s : List ℕ) (v : VersionString) (m : Matches)
    → regex_match s ≡ some m
    → 2 ^ 31 ≤ value_from 0 m.major
    → ((set_version_string s v).0 ≡ true)
      × ((set_version_string s v).1.major ≡ negsuc 0)
      × ((set_version_string s v).1.version ≡ [])
unfolding take_matches generate_version_string generate
set_version_string-overflow s v m h a =
    rw
      (
        set_version_string-match s v m h,
        convert-overflows (m.major) (matched_shape s m h).0.major a,
      )
      (refl, refl, refl)
