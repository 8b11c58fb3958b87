-- ===== src/Base/Reverse.antt =====
-- Lists that agree at every index are equal; reversal read index by index.
use Prim.Native.Nat.{ℕ, zero, suc, ◌+◌, ◌<◌}
use mathlib.Core.Path.{◌≡◌, refl, ap, ◌∙◌}
use mathlib.Core.List.{List, [], ◌∷◌, ◌++◌, reverse, reverse-cons}
use mathlib.Core.Option.{some}
use native.Mathlib.Omega.{arith}
use v8app.Base.Lists.{length, get_elem?, length-append}

module _ {ℓ} {A : Type ℓ} where
  pub length-reverse : (xs : List A) → length (reverse xs) ≡ length xs
  length-reverse [] = refl
  length-reverse (x ∷ xs) =
      omega (
        arith,
        ap length (reverse-cons x xs),
        length-append (reverse xs) (x ∷ []),
        length-reverse xs,
      )

  get_elem?-append_left :
      (xs ys : List A) (i : ℕ) → i < length xs → get_elem? (xs ++ ys) i ≡ get_elem? xs i
  get_elem?-append_left [] ys i h = elim h [ ]
  get_elem?-append_left (x ∷ xs) ys zero h = refl
  get_elem?-append_left (x ∷ xs) ys (suc i) h = get_elem?-append_left xs ys i (omega arith)

  get_elem?-append_end :
      (xs : List A) (y : A) (i : ℕ) → i ≡ length xs → get_elem? (xs ++ (y ∷ [])) i ≡ some y
  get_elem?-append_end [] y zero h = refl
  get_elem?-append_end [] y (suc i) h = absurd (omega arith)
  get_elem?-append_end (x ∷ xs) y zero h = absurd (omega arith)
  get_elem?-append_end (x ∷ xs) y (suc i) h = get_elem?-append_end xs y i (omega arith)

  -- The element at `i` of a reversed list is the element at the mirrored index.
  pub get_elem?-reverse :
      (xs : List A) (i j : ℕ) → i + j + 1 ≡ length xs → get_elem? (reverse xs) i ≡ get_elem? xs j
  get_elem?-reverse [] i j h = absurd (omega arith)
  get_elem?-reverse (x ∷ xs) i zero h =
      rw (reverse-cons x xs)
        (get_elem?-append_end (reverse xs) x i (omega (arith, length-reverse xs)))
  get_elem?-reverse (x ∷ xs) i (suc j) h = rw (reverse-cons x xs) (
      get_elem?-append_left (reverse xs) (x ∷ []) i (omega (arith, length-reverse xs))
      ∙ get_elem?-reverse xs i j (omega arith))

  pub list_ext :
      (xs ys : List A)
      → length xs ≡ length ys
      → ((i : ℕ) → i < length xs → get_elem? xs i ≡ get_elem? ys i)
      → xs ≡ ys
  list_ext [] [] e h = refl
  list_ext [] (y ∷ ys) e h = absurd (omega arith)
  list_ext (x ∷ xs) [] e h = absurd (omega arith)
  list_ext (x ∷ xs) (y ∷ ys) e h =
      cc (h 0 (omega arith), list_ext xs ys (omega arith) (λ i lt. h (suc i) (omega arith)))
