-- ===== src/Versions/Transitive.antt =====
-- The comparison of versions is transitive.
use v8app.Base.{
  ℕ, ◌≡◌, refl, Bool, true, false, not, ◌&&◌, List, [], ◌∷◌, arith, text_ltb, if◌then◌else◌, ℤ, pos,
  int_ltb, int_ltb_trans, int_ltb_asym, int_eq,
}
use v8app.Versions.{
  VersionString, is_empty, is_number, convert_string_to_int, less, greater, tokens, by_text, by_int,
  compare_token, compare_tokens, compare_versions,
}
use v8app.Versions.Order.{text_ltb_asym}

text_ltb_trans : (x y z : List ℕ) → text_ltb x y ≡ true → text_ltb y z ≡ true → text_ltb x z ≡ true
text_ltb_trans [] [] z h g = cc
text_ltb_trans [] (b ∷ y) [] h g = cc
text_ltb_trans [] (b ∷ y) (c ∷ z) h g = refl
text_ltb_trans (a ∷ x) [] z h g = cc
text_ltb_trans (a ∷ x) (b ∷ y) [] h g = cc
text_ltb_trans (a ∷ x) (b ∷ y) (c ∷ z) h g = ground (arith, text_ltb_trans x y z)

text_eq : (x y : List ℕ) → text_ltb x y ≡ false → text_ltb y x ≡ false → x ≡ y
text_eq [] [] h g = refl
text_eq [] (b ∷ y) h g = cc
text_eq (a ∷ x) [] h g = cc
text_eq (a ∷ x) (b ∷ y) h g = ground (arith, text_eq x y)

by_int_trans :
    (i j k r s t : ℤ)
    → (r ≡ less → s ≡ less → t ≡ less)
    → by_int i j r ≡ less
    → by_int j k s ≡ less
    → by_int i k t ≡ less
by_int_trans i j k r s t next h g =
    ground (arith, int_ltb_trans i j k, int_eq i j, int_eq j k, int_ltb_asym i k)

by_text_trans :
    (x y z : List ℕ) (r s t : ℤ)
    → (r ≡ less → s ≡ less → t ≡ less)
    → by_text x y r ≡ less
    → by_text y z s ≡ less
    → by_text x z t ≡ less
by_text_trans x y z r s t next h g =
    ground (arith, text_ltb_trans x y z, text_eq x y, text_eq y z, text_ltb_asym x z)

-- The choice that `compare_token` makes, whatever the comparisons of numbers and of texts come to.
token_trans :
    (p q u : Bool) (nr ns nt tr ts tt' : ℤ)
    → (nr ≡ less → ns ≡ less → nt ≡ less)
    → (tr ≡ less → ts ≡ less → tt' ≡ less)
    → (if p && q then nr else if p && not q then less else if not p && q then greater else tr)
      ≡ less
    → (if q && u then ns else if q && not u then less else if not q && u then greater else ts)
      ≡ less
    → (if p && u then nt else if p && not u then less else if not p && u then greater else tt')
      ≡ less
token_trans true true true nr ns nt tr ts tt' n t h g = n h g
token_trans true true false nr ns nt tr ts tt' n t h g = refl
token_trans true false true nr ns nt tr ts tt' n t h g = cc
token_trans true false false nr ns nt tr ts tt' n t h g = refl
token_trans false true u nr ns nt tr ts tt' n t h g = cc
token_trans false false true nr ns nt tr ts tt' n t h g = cc
token_trans false false false nr ns nt tr ts tt' n t h g = t h g

compare_token_trans :
    (x y z : List ℕ) (r s t : ℤ)
    → (r ≡ less → s ≡ less → t ≡ less)
    → compare_token x y r ≡ less
    → compare_token y z s ≡ less
    → compare_token x z t ≡ less
unfolding compare_token
compare_token_trans x y z r s t next h g =
    token_trans (is_number x) (is_number y) (is_number z) _ _ _ _ _ _
      (by_int_trans (convert_string_to_int x) (convert_string_to_int y) (convert_string_to_int z)
        (by_text x y r) (by_text y z s) (by_text x z t) (by_text_trans x y z r s t next))
      (by_text_trans x y z r s t next) h g

compare_tokens_trans :
    (xs ys zs : List (List ℕ))
    → compare_tokens xs ys ≡ less
    → compare_tokens ys zs ≡ less
    → compare_tokens xs zs ≡ less
unfolding compare_tokens
compare_tokens_trans [] [] zs h g = cc
compare_tokens_trans [] (y ∷ ys) [] h g = cc
compare_tokens_trans [] (y ∷ ys) (z ∷ zs) h g = refl
compare_tokens_trans (x ∷ xs) [] zs h g = cc
compare_tokens_trans (x ∷ xs) (y ∷ ys) [] h g = cc
compare_tokens_trans (x ∷ xs) (y ∷ ys) (z ∷ zs) h g =
    compare_token_trans x y z (compare_tokens xs ys) (compare_tokens ys zs) (compare_tokens xs zs)
      (compare_tokens_trans xs ys zs) h g

pre_release_trans :
    (a b c : Bool) (r s t : ℤ)
    → (r ≡ less → s ≡ less → t ≡ less)
    → (if not a && b then less else if a && not b then greater else r) ≡ less
    → (if not b && c then less else if b && not c then greater else s) ≡ less
    → (if not a && c then less else if a && not c then greater else t) ≡ less
pre_release_trans a b c r s t next h g = ground arith

-- Of three valid versions, if the first is less than the second and the second than the third, the
-- first is less than the third.
pub compare_versions_trans :
    (a b c : VersionString)
    → a.valid ≡ true
    → b.valid ≡ true
    → c.valid ≡ true
    → compare_versions a b ≡ less
    → compare_versions b c ≡ less
    → compare_versions a c ≡ less
unfolding compare_versions
compare_versions_trans a b c va vb vc h g =
    rw (va, vc)
      (by_int_trans (a.major) (b.major) (c.major) _ _ _
        (by_int_trans (a.minor) (b.minor) (c.minor) _ _ _ (
          by_int_trans (a.patch) (b.patch) (c.patch) _ _ _ (
            pre_release_trans (is_empty a.pre_release) (is_empty b.pre_release)
              (is_empty c.pre_release) _ _ _
              (compare_tokens_trans (tokens (a.pre_release)) (tokens (b.pre_release))
                (tokens (c.pre_release))))))
        (rw (va, vb) at h) (rw (vb, vc) at g))

-- A comparison that comes out below 0 is `less`.
IsSigned : ℤ → Type 0
IsSigned r = int_ltb r (pos 0) ≡ true → r ≡ less

by_int-IsSigned : (i j r : ℤ) → IsSigned r → IsSigned (by_int i j r)
unfolding IsSigned
by_int-IsSigned i j r h = ground arith

by_text-IsSigned : (x y : List ℕ) (r : ℤ) → IsSigned r → IsSigned (by_text x y r)
unfolding IsSigned
by_text-IsSigned x y r h = ground arith

token-IsSigned :
    (p q : Bool) (nr tr : ℤ)
    → IsSigned nr
    → IsSigned tr
    → IsSigned
        (if p && q then nr else if p && not q then less else if not p && q then greater else tr)
token-IsSigned true true nr tr n t = n
token-IsSigned true false nr tr n t = unfold IsSigned in λ h. refl
token-IsSigned false true nr tr n t = unfold IsSigned in λ h. cc
token-IsSigned false false nr tr n t = t

pre_release-IsSigned :
    (p q : Bool) (r : ℤ)
    → IsSigned r
    → IsSigned (if not p && q then less else if p && not q then greater else r)
pre_release-IsSigned true true r h = h
pre_release-IsSigned true false r h = unfold IsSigned in λ h. cc
pre_release-IsSigned false true r h = unfold IsSigned in λ h. refl
pre_release-IsSigned false false r h = h

compare_token-IsSigned : (x y : List ℕ) (r : ℤ) → IsSigned r → IsSigned (compare_token x y r)
unfolding compare_token
compare_token-IsSigned x y r h =
    let t = by_text-IsSigned x y r h in
    token-IsSigned (is_number x) (is_number y) _ _
      (by_int-IsSigned (convert_string_to_int x) (convert_string_to_int y) (by_text x y r) t) t

compare_tokens-IsSigned : (xs ys : List (List ℕ)) → IsSigned (compare_tokens xs ys)
unfolding compare_tokens
compare_tokens-IsSigned [] [] = unfold IsSigned in λ h. cc
compare_tokens-IsSigned [] (y ∷ ys) = unfold IsSigned in λ h. refl
compare_tokens-IsSigned (x ∷ xs) [] = unfold IsSigned in λ h. cc
compare_tokens-IsSigned (x ∷ xs) (y ∷ ys) =
    compare_token-IsSigned x y (compare_tokens xs ys) (compare_tokens-IsSigned xs ys)

pub compare_versions-IsSigned :
    (a b : VersionString)
    → a.valid ≡ true
    → b.valid ≡ true
    → int_ltb (compare_versions a b) (pos 0) ≡ true
    → compare_versions a b ≡ less
unfolding compare_versions IsSigned
compare_versions-IsSigned a b va vb =
    rw (va, vb)
      (by_int-IsSigned (a.major) (b.major) _ (
        by_int-IsSigned (a.minor) (b.minor) _ (
          by_int-IsSigned (a.patch) (b.patch) _ (
            pre_release-IsSigned (is_empty a.pre_release) (is_empty b.pre_release) _
              (compare_tokens-IsSigned (tokens (a.pre_release)) (tokens (b.pre_release)))))))
