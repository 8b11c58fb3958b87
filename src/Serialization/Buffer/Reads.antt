-- ===== src/Serialization/Buffer/Reads.antt =====
-- What `SerializeRead` and `Peek` do on every input.
use v8app.Base.{
  ℕ, zero, suc, ◌+◌, ◌%◌, ◌≤◌, ◌<◌, ◌≡◌, refl, ap, ◌∙◌, sym, inl, inr, none, some, List, [], ◌∷◌,
  ◌++◌, arith, length, get_elem?, drop, length-append, drop-append, le→not_ltb, lt→ltb,
  Option-cases,
}
use v8app.Serialization.Buffer.{ReadBuffer, size_mod, fetch, store, serialize_read, set_read_error}

-- The bytes that a reader has yet to read are `input`.
pub record HasInput (r : ReadBuffer) (input : List ℕ) : Type 0 where
  pub rest_is : drop r.read_pos r.buffer ≡ input
  pub in_bounds : r.read_pos + length input ≡ length r.buffer
  pub fits : length r.buffer < size_mod

unfoldable pub advance : ReadBuffer → ℕ → ReadBuffer
advance r n = record r { read_pos = r.read_pos + n }

module _ {ℓ} {A : Type ℓ} where
  drop-nil : (k : ℕ) → drop {A = A} k [] ≡ []
  drop-nil zero = refl
  drop-nil (suc k) = refl

  drop-add : (m n : ℕ) (xs : List A) → drop n (drop m xs) ≡ drop (m + n) xs
  drop-add zero n xs = let e : n ≡ 0 + n = omega arith in ap (λ k. drop k xs) e
  drop-add (suc m) n [] = let e : suc m + n ≡ suc (m + n) = omega arith in rw e (drop-nil n)
  drop-add (suc m) n (x ∷ xs) =
      let e : suc m + n ≡ suc (m + n) = omega arith in rw e (drop-add m n xs)

get_elem?-drop {ℓ} :
    {A : Type ℓ} (n : ℕ) (xs : List A) (b : A) (ys : List A)
    → drop n xs ≡ b ∷ ys
    → get_elem? xs n ≡ some b
get_elem?-drop zero [] b ys e = cc
get_elem?-drop zero (x ∷ xs) b ys e = cc
get_elem?-drop (suc n) [] b ys e = cc
get_elem?-drop (suc n) (x ∷ xs) b ys e = get_elem?-drop n xs b ys e

fetch_lem :
    (bs rest buffer : List ℕ) (pos : ℕ)
    → drop pos buffer ≡ bs ++ rest
    → fetch (length bs) pos buffer ≡ some bs
unfolding fetch
fetch_lem [] rest buffer pos e = refl
fetch_lem (b ∷ bs) rest buffer pos e = rw (
  get_elem?-drop pos buffer b (bs ++ rest) e,
  fetch_lem bs rest buffer (pos + 1) (sym (drop-add pos 1 buffer) ∙ ap (drop 1) e),
)

store_lem : (bs dest : List ℕ) → length bs ≡ length dest → store bs dest ≡ some bs
unfolding store
store_lem [] [] e = refl
store_lem [] (d ∷ dest) e = absurd (omega arith)
store_lem (b ∷ bs) [] e = absurd (omega arith)
store_lem (b ∷ bs) (d ∷ dest) e = rw (store_lem bs dest (omega arith))

-- A store into larger memory leaves what stands behind the stored bytes.
store-append :
    (bs front back : List ℕ)
    → length bs ≡ length front
    → store bs (front ++ back) ≡ some (bs ++ back)
unfolding store
store-append [] [] back e = refl
store-append [] (d ∷ front) back e = absurd (omega arith)
store-append (b ∷ bs) [] back e = absurd (omega arith)
store-append (b ∷ bs) (d ∷ front) back e = rw (store-append bs front back (omega arith))

pub HasInput-advance :
    {r : ReadBuffer} (bs rest : List ℕ)
    → HasInput r (bs ++ rest)
    → HasInput (advance r (length bs)) rest
unfolding advance
HasInput-advance {r} bs rest h = record {
  rest_is =
      sym (drop-add r.read_pos (length bs) r.buffer)
      ∙ ap (drop (length bs)) h.rest_is
      ∙ drop-append bs rest;
  in_bounds = omega (arith, h.in_bounds, length-append bs rest);
  fits = h.fits;
}

-- With the bytes at hand the read delivers them and moves past them; what stands in the destination
-- behind them stays.
pub serialize_read-HasInput :
    (r : ReadBuffer) (bs rest front back : List ℕ)
    → HasInput r (bs ++ rest)
    → length bs ≡ length front
    → serialize_read r (front ++ back) (length bs) ≡ some (bs ++ back, advance r (length bs))
unfolding serialize_read advance
serialize_read-HasInput r bs rest front back h e = rw (
  le→not_ltb (length r.buffer) ((r.read_pos + length bs) % size_mod) enough,
  fetch_lem bs rest r.buffer r.read_pos h.rest_is,
  store-append bs front back e,
)
  where
    enough : (r.read_pos + length bs) % size_mod ≤ length r.buffer
    enough = omega (arith, h.in_bounds, h.fits, length-append bs rest)

-- A read past the end stores nothing, moves nowhere and sets the error, if the sum of position and
-- size does not wrap.
pub serialize_read_short :
    (r : ReadBuffer) (dest : List ℕ) (size : ℕ)
    → length r.buffer < r.read_pos + size
    → r.read_pos + size < size_mod
    → serialize_read r dest size ≡ some (dest, set_read_error r)
unfolding serialize_read
serialize_read_short r dest size short fits =
    let e : length r.buffer < (r.read_pos + size) % size_mod = omega arith in
    rw (lt→ltb (length r.buffer) ((r.read_pos + size) % size_mod) e)

fetch_past :
    (n pos : ℕ) (buffer : List ℕ)
    → pos ≤ length buffer
    → length buffer < pos + n
    → fetch n pos buffer ≡ none
unfolding fetch
fetch_past zero pos buffer h k = absurd (omega arith)
fetch_past (suc n) pos buffer h k = elim (Option-cases (get_elem? buffer pos)) [
  | inl e ↦ rw e
  | inr (b, e) ↦ rw e (rw (fetch_past n (pos + 1) buffer (below buffer pos b e) (omega arith)))
]
  where
    below : (xs : List ℕ) (i a : ℕ) → get_elem? xs i ≡ some a → i + 1 ≤ length xs
    below [] i a e = cc
    below (x ∷ xs) zero a e = omega arith
    below (x ∷ xs) (suc i) a e = omega (arith, below xs i a e)

-- Where the sum of position and size wraps to a number within the buffer, the bounds test passes and
-- the loop runs out of the buffer.
pub serialize_read_wraps :
    (r : ReadBuffer) (dest : List ℕ) (size : ℕ)
    → r.read_pos ≤ length r.buffer
    → length r.buffer < size_mod
    → size < size_mod
    → size_mod ≤ r.read_pos + size
    → serialize_read r dest size ≡ none
unfolding serialize_read
serialize_read_wraps r dest size pos fits small wraps = rw (
  le→not_ltb (length r.buffer) ((r.read_pos + size) % size_mod) (omega arith),
  fetch_past size r.read_pos r.buffer pos (omega arith),
)
