-- ===== src/Base/Texts.antt =====
-- Texts as their bytes, and `std::map` with texts for keys.
use Prim.Native.Nat.{ℕ}
use Prim.Native.Char.{code}
use Prim.Native.String.{String}
use mathlib.Core.Path.{◌≡◌, refl, ◌∙◌}
use mathlib.Core.Bool.{Bool, true, false, ◌&&◌, ◌||◌}
use mathlib.Core.List.{List, [], ◌∷◌}
use mathlib.Core.Option.{Option, none, some}
use native.Mathlib.Omega.{arith}
use v8app.Base.Tests.{◌==◌, ltb, if◌then◌else◌}
use v8app.Base.Lists.{list_eq, list_eq_iff, list_eq_refl}

-- The bytes of an ASCII text.
abbrev pub codes : String → List ℕ
codes String.[] = []
codes (String.◌∷◌ c s) = code c ∷ codes s

-- `operator<` of `std::string`.
abbrev pub text_ltb : List ℕ → List ℕ → Bool
text_ltb xs [] = false
text_ltb [] (y ∷ ys) = true
text_ltb (x ∷ xs) (y ∷ ys) = ltb x y || (x == y && text_ltb xs ys)

-- The entries of a map, by rising key.
module _ {ℓ} {A : Type ℓ} where
  abbrev pub find : List ℕ → List (List ℕ × A) → Option A
  find k [] = none
  find k ((j, a) ∷ m) = if list_eq j k then some a else find k m

  abbrev pub place : List ℕ → A → List (List ℕ × A) → List (List ℕ × A)
  place k a [] = (k, a) ∷ []
  place k a ((j, b) ∷ m) = if text_ltb k j then (k, a) ∷ (j, b) ∷ m else (j, b) ∷ place k a m

  -- `emplace` leaves a key that is there alone.
  abbrev pub emplace : List ℕ → A → List (List ℕ × A) → List (List ℕ × A)
  emplace k a m = elim (find k m) [ some b ↦ m | none ↦ place k a m ]

  abbrev pub erase : List ℕ → List (List ℕ × A) → List (List ℕ × A)
  erase k [] = []
  erase k ((j, a) ∷ m) = if list_eq j k then m else (j, a) ∷ erase k m

module _ {ℓ} {A : Type ℓ} where
  pub find-place :
      (k j : List ℕ) (a : A) (m : List (List ℕ × A))
      → find k m ≡ none
      → find j (place k a m) ≡ (if list_eq k j then some a else find j m)
  find-place k j a [] h = refl
  find-place k j a ((i, b) ∷ m) h =
      ground (arith, list_eq_iff i k, list_eq_iff i j, list_eq_iff k j, find-place k j a m)

  pub find-place_same :
      (k : List ℕ) (a : A) (m : List (List ℕ × A)) → find k m ≡ none → find k (place k a m) ≡ some a
  find-place_same k a m h = find-place k k a m h ∙ rw (list_eq_refl k) refl

  -- A lookup after an emplacement.
  pub find-emplace :
      (k j : List ℕ) (a : A) (m : List (List ℕ × A))
      → find j (emplace k a m)
        ≡ elim (find j m) [ some b ↦ some b | none ↦ if list_eq k j then some a else none ]
  find-emplace k j a m = ground (arith, list_eq_iff k j, find-place k j a m)
