-- ===== src/Versions/Equality.antt =====
-- Which versions the comparison takes for equal.
use v8app.Base.{
  ℕ, ◌≡◌, ◌↔◌, refl, true, false, not, ◌&&◌, List, [], ◌∷◌, arith, text_ltb, if◌then◌else◌, ℤ, pos,
  negsuc, int_ltb, ap,
}
use v8app.Versions.{
  VersionString, is_number, is_empty, convert_string_to_int, less, equal, greater, tokens, by_text,
  by_int, compare_token, compare_tokens, compare_versions,
}

text_trichotomy : (x y : List ℕ) → text_ltb x y ≡ false → text_ltb y x ≡ false → x ≡ y
text_trichotomy [] [] h k = refl
text_trichotomy [] (y ∷ ys) h k = cc
text_trichotomy (x ∷ xs) [] h k = cc
text_trichotomy (x ∷ xs) (y ∷ ys) h k = ground (arith, text_trichotomy xs ys)

text_ltb_irrefl : (x : List ℕ) → text_ltb x x ≡ false
text_ltb_irrefl [] = refl
text_ltb_irrefl (x ∷ xs) = ground (arith, text_ltb_irrefl xs)

int_trichotomy : (i j : ℤ) → int_ltb i j ≡ false → int_ltb j i ≡ false → i ≡ j
int_trichotomy (pos m) (pos n) h k = ground arith
int_trichotomy (pos m) (negsuc n) h k = cc
int_trichotomy (negsuc m) (pos n) h k = cc
int_trichotomy (negsuc m) (negsuc n) h k = ground arith

int_ltb_irrefl : (i : ℤ) → int_ltb i i ≡ false
int_ltb_irrefl (pos n) = ground arith
int_ltb_irrefl (negsuc n) = ground arith

by_text-equal : (x y : List ℕ) (r : ℤ) → (by_text x y r ≡ equal) ↔ ((x ≡ y) × (r ≡ equal))
by_text-equal x y r =
    (λ h. ground (arith, text_trichotomy x y), λ h. rw (h.0, text_ltb_irrefl y) h.1)

by_int-equal : (i j r : ℤ) → (by_int i j r ≡ equal) ↔ ((i ≡ j) × (r ≡ equal))
by_int-equal i j r = (λ h. ground (arith, int_trichotomy i j), λ h. rw (h.0, int_ltb_irrefl j) h.1)

compare_token-equal :
    (x y : List ℕ) (r : ℤ) → (compare_token x y r ≡ equal) ↔ ((x ≡ y) × (r ≡ equal))
unfolding compare_token
compare_token-equal x y r =
    let i = convert_string_to_int x in
    let j = convert_string_to_int y in
    (
      λ h. ground (arith, (by_int-equal i j (by_text x y r)).0, (by_text-equal x y r).0),
      λ h. let t = (by_text-equal x y r).1 h in same h t,
    )
  where
    same : ((x ≡ y) × (r ≡ equal)) → by_text x y r ≡ equal → compare_token x y r ≡ equal
    same h t =
        let k : by_int (convert_string_to_int x) (convert_string_to_int y) (by_text x y r) ≡ equal =
          (by_int-equal _ _ _).1 (ap convert_string_to_int h.0, t) in
        let e : is_number x ≡ is_number y = ap (λ z. is_number z) h.0 in ground (arith, k, t, e)

compare_tokens-equal : (xs ys : List (List ℕ)) → (compare_tokens xs ys ≡ equal) ↔ (xs ≡ ys)
unfolding compare_tokens
compare_tokens-equal [] [] = (λ h. refl, λ h. refl)
compare_tokens-equal [] (y ∷ ys) = (λ h. cc, λ h. cc)
compare_tokens-equal (x ∷ xs) [] = (λ h. cc, λ h. cc)
compare_tokens-equal (x ∷ xs) (y ∷ ys) =
    let t = compare_token-equal x y (compare_tokens xs ys) in
    let k = compare_tokens-equal xs ys in
    (λ h. let (e, r) = t.0 h in cc (e, k.0 r), λ h. t.1 (ground arith, k.1 (ground arith)))

pre_release_equal :
    (a b : List ℕ) (r : ℤ)
    → ((if not (is_empty a) && is_empty b
          then less
          else if is_empty a && not (is_empty b)
          then greater
          else r)
        ≡ equal)
      ↔ ((is_empty a ≡ is_empty b) × (r ≡ equal))
pre_release_equal a b r = (λ h. ground arith, λ h. ground arith)

-- What of a version the comparison looks at.
pub record Same (a b : VersionString) : Type 0 where
  pub major : a.major ≡ b.major
  pub minor : a.minor ≡ b.minor
  pub patch : a.patch ≡ b.patch
  pub released : is_empty a.pre_release ≡ is_empty b.pre_release
  pub parts : tokens (a.pre_release) ≡ tokens (b.pre_release)

-- Two valid versions compare as equal exactly if their three numbers are the same, both or none have a
-- pre-release, and its parts are the same; the build never counts.
pub compare_versions-equal :
    (a b : VersionString)
    → a.valid ≡ true
    → b.valid ≡ true
    → (compare_versions a b ≡ equal) ↔ Same a b
unfolding compare_versions
compare_versions-equal a b va vb =
    let r = compare_tokens (tokens (a.pre_release)) (tokens (b.pre_release)) in
    let p = pre_release_equal (a.pre_release) (b.pre_release) r in
    let t = compare_tokens-equal (tokens (a.pre_release)) (tokens (b.pre_release)) in
    rw (va, vb)
      (
        λ h.
            let (major, h₁) = (by_int-equal (a.major) (b.major) _).0 h in
            let (minor, h₂) = (by_int-equal (a.minor) (b.minor) _).0 h₁ in
            let (patch, h₃) = (by_int-equal (a.patch) (b.patch) _).0 h₂ in
            let (released, h₄) = p.0 h₃ in
            record {
              major = major;
              minor = minor;
              patch = patch;
              released = released;
              parts = t.0 h₄;
            },
        λ s. (by_int-equal (a.major) (b.major) _).1 (
          s.major,
          (by_int-equal (a.minor) (b.minor) _).1 (
            s.minor,
            (by_int-equal (a.patch) (b.patch) _).1 (s.patch, p.1 (s.released, t.1 s.parts)),
          ),
        ),
      )
