-- ===== src/Serialization/Values/Strings.antt =====
-- Strings in a stream: the layout, and the round trip.
use v8app.Base.{
  ℕ, zero, suc, ◌+◌, ◌^◌, ◌≤◌, ◌<◌, ◌≡◌, ◌≢◌, refl, ap, subst, ◌∙◌, Bool, false, some, List, [],
  ◌∷◌, ◌++◌, arith, if◌then◌else◌, ◌==◌, length, append-nil, append_assoc, All, length-append,
}
use native.Mathlib.Nat.{one-le-pow}
use v8app.Serialization.Bytes.{object_bytes, length-object_bytes, IsByte, one_byte}
use v8app.Serialization.Buffer.{ReadBuffer, WriteBuffer}
use v8app.Serialization.Buffer.Reads.{HasInput, advance}
use v8app.Serialization.Buffer.Writes.{appended, appended_twice}
use v8app.Serialization.Values.{char_at, read_chars, write_chars}
use v8app.Serialization.Values.Fixed.{
  write_fixed_layout, read_fixed-HasInput, HasInput-advance_fixed,
}

-- Characters of `w` bytes one behind the other, in the byte order of a stream.
pub wire_chars : Bool → ℕ → List ℕ → List ℕ
wire_chars big w [] = []
wire_chars big w (c ∷ s) = object_bytes big w c ++ wire_chars big w s

-- The characters of a string that has no terminator inside.
abbrev pub IsChar : ℕ → ℕ → Type 0
IsChar w c = (c ≢ 0) × (c < 256 ^ w)

pub advance_twice : (r : ReadBuffer) (m n : ℕ) → advance (advance r m) n ≡ advance r (m + n)
unfolding advance
advance_twice r m n =
    let e : r.read_pos + m + n ≡ r.read_pos + (m + n) = omega arith in
    ap (λ p. record r { read_pos = p }) e

char_at_total : (s : List ℕ) (i : ℕ) → i ≤ length s → (c : ℕ) × (char_at s i ≡ some c)
char_at_total [] zero h = (0, refl)
char_at_total [] (suc i) h = absurd (omega arith)
char_at_total (x ∷ s) zero h = (x, ground arith)
char_at_total (x ∷ s) (suc i) h = let (c, e) = char_at_total s i (omega arith) in (c, ground arith)

-- One round of the loop.
read_chars_round :
    (native : Bool) (w k i : ℕ) (r : ReadBuffer) (value : List ℕ) (c : ℕ) (rest : List ℕ)
    → i ≤ length value
    → c < 256 ^ w
    → HasInput r (object_bytes r.stream_state.big_endian w c ++ rest)
    → read_chars native w (suc k) i r value
      ≡ read_chars native w k (i + 1) (advance r w) (if c == 0 then value else value ++ (c ∷ []))
unfolding read_chars
read_chars_round native w k i r value c rest hi lt h =
    let (old, e) = char_at_total value i hi in
    rw e (rw (read_fixed-HasInput native w r old c rest lt h))

nul_fits : (w : ℕ) → 0 < 256 ^ w
nul_fits w = omega (arith, one-le-pow w 256 (omega arith))

wire_step :
    (big : Bool) (w c : ℕ) (s rest : List ℕ)
    → wire_chars big w (c ∷ s) ++ rest ≡ object_bytes big w c ++ (wire_chars big w s ++ rest)
unfolding wire_chars
wire_step big w c s rest = append_assoc (object_bytes big w c) (wire_chars big w s) rest

length-wire_step :
    (big : Bool) (w c : ℕ) (s : List ℕ)
    → length (wire_chars big w (c ∷ s)) ≡ w + length (wire_chars big w s)
unfolding wire_chars
length-wire_step big w c s =
    omega (
      arith,
      length-append (object_bytes big w c) (wire_chars big w s),
      length-object_bytes big w c,
    )

wire_nul :
    (big : Bool) (w : ℕ) (rest : List ℕ)
    → wire_chars big w (0 ∷ []) ++ rest ≡ object_bytes big w 0 ++ rest
unfolding wire_chars
wire_nul big w rest = rw (append-nil (object_bytes big w 0))

length-wire_nul : (big : Bool) (w : ℕ) → length (wire_chars big w (0 ∷ [])) ≡ w
unfolding wire_chars
length-wire_nul big w = rw (append-nil (object_bytes big w 0)) (length-object_bytes big w 0)

-- The loop appends the characters to what the string held, and reads up to the terminator.
pub read_chars-HasInput :
    (native : Bool) (w i : ℕ) (r : ReadBuffer) (value s rest : List ℕ)
    → i ≤ length value
    → All (IsChar w) s
    → HasInput r (wire_chars r.stream_state.big_endian w (s ++ (0 ∷ [])) ++ rest)
    → read_chars native w (suc (length s)) i r value
      ≡ some
          (value ++ s, advance r (length (wire_chars r.stream_state.big_endian w (s ++ (0 ∷ [])))))
unfolding read_chars advance
read_chars-HasInput native w i r value [] rest hi all h =
    read_chars_round native w 0 i r value 0 rest hi (nul_fits w)
      (subst (HasInput r) (wire_nul r.stream_state.big_endian w rest) h)
    ∙ rw (append-nil, length-wire_nul)
read_chars-HasInput native w i r value (c ∷ s) rest hi all h =
    read_chars_round native w (suc (length s)) i r value c _ hi all.0.1 front
    ∙ rw
        (
          nonzero,
          length-wire_step r.stream_state.big_endian w c (s ++ (0 ∷ [])),
          ← advance_twice r w (length (wire_chars r.stream_state.big_endian w (s ++ (0 ∷ [])))),
        )
        (read_chars-HasInput native w (i + 1) (advance r w) (value ++ (c ∷ [])) s rest
            (omega (arith, length-append value (c ∷ []))) all.1
            (HasInput-advance_fixed r.stream_state.big_endian w c _ front)
          ∙ rw (append_assoc value (c ∷ []) s))
  where
    front : HasInput r (
        object_bytes r.stream_state.big_endian w c
        ++ (wire_chars r.stream_state.big_endian w (s ++ (0 ∷ [])) ++ rest))
    front = subst (HasInput r) (wire_step r.stream_state.big_endian w c (s ++ (0 ∷ [])) rest) h

    nonzero : (c == 0) ≡ false
    nonzero = ground arith

pub write_chars_layout :
    (native : Bool) (w : ℕ) (b : WriteBuffer) (s : List ℕ)
    → write_chars native w b s ≡ appended b (wire_chars b.stream_state.big_endian w s)
unfolding write_chars wire_chars appended
write_chars_layout native w b [] = rw (append-nil b.buffer)
write_chars_layout native w b (c ∷ s) = rw (write_fixed_layout native w b c) (
    write_chars_layout native w (appended b (object_bytes b.stream_state.big_endian w c)) s
    ∙ appended_twice b (object_bytes b.stream_state.big_endian w c)
        (wire_chars b.stream_state.big_endian w s))

-- One byte for each character: the characters as they are.
pub wire_bytes : (big : Bool) (s : List ℕ) → All IsByte s → wire_chars big 1 s ≡ s
unfolding wire_chars
wire_bytes big [] all = refl
wire_bytes big (c ∷ s) all = rw (wire_bytes big s all.1) (ap (λ l. l ++ s) (one_byte big c all.0))
