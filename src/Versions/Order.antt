-- ===== src/Versions/Order.antt =====
-- The comparison of versions as an order.
use v8app.Base.{
  ℕ, zero, suc, ◌≡◌, refl, true, false, not, ◌&&◌, List, [], ◌∷◌, arith, text_ltb, if◌then◌else◌, ℤ,
  pos, negsuc, neg, int_ltb_asym,
}
use v8app.Versions.{
  VersionString, is_empty, convert_string_to_int, less, equal, greater, tokens, by_text, by_int,
  compare_token, compare_tokens, compare_versions,
}

pub text_ltb_asym : (x y : List ℕ) → text_ltb x y ≡ true → text_ltb y x ≡ false
text_ltb_asym [] [] h = cc
text_ltb_asym [] (y ∷ ys) h = refl
text_ltb_asym (x ∷ xs) [] h = cc
text_ltb_asym (x ∷ xs) (y ∷ ys) h = ground (arith, text_ltb_asym xs ys)

by_text-neg : (x y : List ℕ) (r s : ℤ) → s ≡ neg r → by_text y x s ≡ neg (by_text x y r)
by_text-neg x y r s e = ground (arith, text_ltb_asym x y, text_ltb_asym y x)

by_int-neg : (i j r s : ℤ) → s ≡ neg r → by_int j i s ≡ neg (by_int i j r)
by_int-neg i j r s e = ground (arith, int_ltb_asym i j, int_ltb_asym j i)

compare_token-neg :
    (x y : List ℕ) (r s : ℤ) → s ≡ neg r → compare_token y x s ≡ neg (compare_token x y r)
unfolding compare_token
compare_token-neg x y r s e = ground (
  arith,
  by_text-neg x y r s e,
  by_int-neg (convert_string_to_int x) (convert_string_to_int y) (by_text x y r) (by_text y x s),
)

compare_tokens-neg : (xs ys : List (List ℕ)) → compare_tokens ys xs ≡ neg (compare_tokens xs ys)
unfolding compare_tokens
compare_tokens-neg [] [] = refl
compare_tokens-neg [] (y ∷ ys) = refl
compare_tokens-neg (x ∷ xs) [] = refl
compare_tokens-neg (x ∷ xs) (y ∷ ys) =
    compare_token-neg x y (compare_tokens xs ys) (compare_tokens ys xs) (compare_tokens-neg xs ys)

pre_release-neg :
    (a b : List ℕ) (r s : ℤ)
    → s ≡ neg r
    → (if not (is_empty b) && is_empty a
        then less
        else if is_empty b && not (is_empty a)
        then greater
        else s)
      ≡ neg (
          if not (is_empty a) && is_empty b
          then less
          else if is_empty a && not (is_empty b)
          then greater
          else r)
pre_release-neg a b r s e = ground arith

-- Two valid versions compare the other way round when they are exchanged.
pub compare_versions-neg :
    (a b : VersionString)
    → a.valid ≡ true
    → b.valid ≡ true
    → compare_versions b a ≡ neg (compare_versions a b)
unfolding compare_versions
compare_versions-neg a b va vb =
    let k =
      pre_release-neg (a.pre_release) (b.pre_release) _ _
        (compare_tokens-neg (tokens (a.pre_release)) (tokens (b.pre_release))) in
    rw (va, vb)
      (by_int-neg (a.major) (b.major) _ _
        (by_int-neg (a.minor) (b.minor) _ _ (by_int-neg (a.patch) (b.patch) _ _ k)))

neg_fixed : (i : ℤ) → i ≡ neg i → i ≡ equal
neg_fixed (pos zero) h = refl
neg_fixed (pos (suc n)) h = cc
neg_fixed (negsuc n) h = cc

-- A valid version equals itself.
pub compare_versions_self : (a : VersionString) → a.valid ≡ true → compare_versions a a ≡ equal
compare_versions_self a va = neg_fixed (compare_versions a a) (compare_versions-neg a a va va)
