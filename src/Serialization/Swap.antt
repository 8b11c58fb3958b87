-- ===== src/Serialization/Swap.antt =====
-- `SwapBytes` of include/Serialization/TypeSerializer.h: the in-place byte swap of a value.
use v8app.Base.{
  ℕ, zero, suc, ◌+◌, ◌-◌, ◌/◌, ◌≤◌, ◌<◌, ◌≡◌, refl, sym, ◌∙◌, some, List, [], ◌∷◌, ◌⊎◌, reverse,
  arith, ◌==◌, if◌then◌else◌, length, get_elem?, set, length-set, list_ext, length-reverse,
  get_elem?-reverse,
}
use mathlib.Core.List.{reverse-reverse}

-- `p[i]`, for an index within the value.
byte_at : List ℕ → ℕ → ℕ
byte_at [] i = 0
byte_at (b ∷ p) zero = b
byte_at (b ∷ p) (suc i) = byte_at p i

-- `std::swap(p[i], p[j])`.
swap_at : List ℕ → ℕ → ℕ → List ℕ
unfolding byte_at
swap_at p i j = set (set p i (byte_at p j)) j (byte_at p i)

-- `for (; i < sizeof(T) / 2; i++)`, with the rounds that are left.
swap_loop : ℕ → ℕ → List ℕ → List ℕ
unfolding swap_at
swap_loop zero i p = p
swap_loop (suc rounds) i p = swap_loop rounds (i + 1) (swap_at p (length p - 1 - i) i)

unfoldable pub swap_bytes : List ℕ → List ℕ
unfolding swap_loop
swap_bytes p =
    if length p == 1
    then p
    else if length p == 2
    then swap_at p 0 1
    else swap_loop (length p / 2) 0 p

get_elem?-byte_at : (p : List ℕ) (i : ℕ) → i < length p → get_elem? p i ≡ some (byte_at p i)
unfolding byte_at
get_elem?-byte_at [] i h = elim h [ ]
get_elem?-byte_at (b ∷ p) zero h = refl
get_elem?-byte_at (b ∷ p) (suc i) h = get_elem?-byte_at p i (omega arith)

get_elem?-set :
    (p : List ℕ) (i j v : ℕ)
    → i < length p
    → get_elem? (set p i v) j ≡ (if j == i then some v else get_elem? p j)
get_elem?-set [] i j v h = elim h [ ]
get_elem?-set (b ∷ p) zero zero v h = refl
get_elem?-set (b ∷ p) zero (suc j) v h = ground arith
get_elem?-set (b ∷ p) (suc i) zero v h = ground arith
get_elem?-set (b ∷ p) (suc i) (suc j) v h = ground (arith, get_elem?-set p i j v (omega arith))

length-swap_at : (p : List ℕ) (i j : ℕ) → length (swap_at p i j) ≡ length p
unfolding swap_at
length-swap_at p i j =
    length-set (set p i (byte_at p j)) j (byte_at p i) ∙ length-set p i (byte_at p j)

get_elem?-swap_at :
    (p : List ℕ) (i j k : ℕ)
    → i < length p
    → j < length p
    → get_elem? (swap_at p i j) k
      ≡ (if k == j then get_elem? p i else if k == i then get_elem? p j else get_elem? p k)
unfolding swap_at
get_elem?-swap_at p i j k hi hj = ground (
  arith,
  get_elem?-set (set p i (byte_at p j)) j k (byte_at p i),
  get_elem?-set p i k (byte_at p j) hi,
  length-set p i (byte_at p j),
  get_elem?-byte_at p i hi,
  get_elem?-byte_at p j hj,
)

-- After `i` rounds on `xs`: the outer `i` bytes at each end are exchanged, the rest is untouched.
record Swapped (i : ℕ) (xs p : List ℕ) : Type 0 where
  same_length : length p ≡ length xs
  outer : (j k : ℕ) → j + k + 1 ≡ length xs → (j < i) ⊎ (k < i) → get_elem? p j ≡ get_elem? xs k
  inner : (j k : ℕ) → j + k + 1 ≡ length xs → i ≤ j → i ≤ k → get_elem? p j ≡ get_elem? xs j

swap_step :
    (i : ℕ) (xs p : List ℕ)
    → Swapped i xs p
    → i + i + 1 < length xs
    → Swapped (i + 1) xs (swap_at p (length p - 1 - i) i)
swap_step i xs p s h = record {
  same_length = length-swap_at p (length p - 1 - i) i ∙ s.same_length;
  outer = λ j k e o. ground (
    arith,
    s.same_length,
    get_elem?-swap_at p (length p - 1 - i) i j,
    s.inner i (length p - 1 - i),
    s.inner (length p - 1 - i) i,
    s.outer j k e,
  );
  inner = λ j k e hj hk.
      ground (arith, s.same_length, get_elem?-swap_at p (length p - 1 - i) i j, s.inner j k e);
}

swap_loop-Swapped :
    (rounds i m : ℕ) (xs p : List ℕ)
    → i + rounds ≡ m
    → m + m ≤ length xs
    → Swapped i xs p
    → Swapped m xs (swap_loop rounds i p)
unfolding swap_loop
swap_loop-Swapped zero i m xs p e h s = let e' : i ≡ m = omega arith in rw (← e') s
swap_loop-Swapped (suc rounds) i m xs p e h s =
    swap_loop-Swapped rounds (i + 1) m xs _ (omega arith) h (swap_step i xs p s (omega arith))

-- With half of the bytes exchanged the list is reversed.
Swapped-reverse : (m : ℕ) (xs p : List ℕ) → Swapped m xs p → length xs ≤ m + m + 1 → p ≡ reverse xs
Swapped-reverse m xs p s h =
    list_ext p (reverse xs) (s.same_length ∙ sym (length-reverse xs))
      λ j lt. mirror j (length xs - 1 - j) (omega (arith, s.same_length))
  where
    mirror : (j k : ℕ) → j + k + 1 ≡ length xs → get_elem? p j ≡ get_elem? (reverse xs) j
    mirror j k e = ground (arith, get_elem?-reverse xs j k e, s.outer j k e, s.inner j k e)

Swapped-start : (xs : List ℕ) → Swapped 0 xs xs
Swapped-start xs = record {
  same_length = refl;
  outer = λ j k e o. ground arith;
  inner = λ j k e hj hk. refl;
}

swap_loop-reverse : (xs : List ℕ) → swap_loop (length xs / 2) 0 xs ≡ reverse xs
swap_loop-reverse xs =
    Swapped-reverse (length xs / 2) xs _
      (swap_loop-Swapped (length xs / 2) 0 (length xs / 2) xs xs (omega arith) (omega arith)
        (Swapped-start xs))
      (omega arith)

-- The in-place byte swap reverses the bytes of a value of any size.
pub swap_bytes-reverse : (p : List ℕ) → swap_bytes p ≡ reverse p
unfolding swap_bytes
swap_bytes-reverse [] = swap_loop-reverse []
swap_bytes-reverse (a ∷ []) = refl
swap_bytes-reverse (a ∷ b ∷ []) = unfold swap_at byte_at in refl
swap_bytes-reverse (a ∷ b ∷ c ∷ p) = ground (arith, swap_loop-reverse (a ∷ b ∷ c ∷ p))

-- Swapping twice gives the value back, and its size stays.
pub swap_bytes_twice : (p : List ℕ) → swap_bytes (swap_bytes p) ≡ p
swap_bytes_twice p = rw (swap_bytes-reverse p) (swap_bytes-reverse (reverse p) ∙ reverse-reverse p)
