-- ===== src/Serialization/Values/RoundTrip.antt =====
-- Strings in a stream: the layout on the wire, and reading it back.
use native.Mathlib.Numerals.{add-one}
use v8app.Base.{
  ℕ, ◌+◌, ◌%◌, ◌^◌, ◌<◌, ◌≡◌, sym, ap, subst, ◌∙◌, Bool, some, List, [], ◌∷◌, ◌++◌, arith, length,
  append_assoc, All, length-append, All-append,
}
use v8app.Serialization.Bytes.{object_bytes, length-object_bytes, IsByte}
use v8app.Serialization.Buffer.{ReadBuffer, WriteBuffer, size_mod}
use v8app.Serialization.Buffer.Reads.{HasInput, HasInput-advance, advance}
use v8app.Serialization.Buffer.Writes.{
  appended, serialize_write-appended, appended_twice, ReadsBack, ReadsBack-HasInput,
}
use v8app.Serialization.Values.{
  write_fixed, read_fixed, read_chars, write_string, read_string, write_wstring, read_wstring,
}
use v8app.Serialization.Values.Fixed.{
  write_fixed_layout, read_fixed-HasInput, HasInput-advance_fixed,
}
use v8app.Serialization.Values.Strings.{
  wire_chars, IsChar, read_chars-HasInput, write_chars_layout, wire_bytes, advance_twice,
}

-- A string on the wire: the count with the terminator, the characters, the terminator.
pub wire_string : Bool → ℕ → List ℕ → List ℕ
wire_string big w s = object_bytes big 8 (length s + 1) ++ wire_chars big w (s ++ (0 ∷ []))

-- On every platform a wide string is written in the stream's byte order.
write_wstring_layout :
    (native : Bool) (wide : ℕ) (b : WriteBuffer) (s : List ℕ)
    → length s + 1 < size_mod
    → write_wstring native wide b s ≡ appended b (wire_string b.stream_state.big_endian wide s)
unfolding write_wstring wire_string
write_wstring_layout native wide b s h =
    rw (small, write_fixed_layout native 8 b (length s + 1), write_chars_layout)
      (unfold appended in
        appended_twice b (object_bytes b.stream_state.big_endian 8 (length s + 1))
          (wire_chars b.stream_state.big_endian wide (s ++ (0 ∷ []))))
  where
    small : (length s + 1) % size_mod ≡ length s + 1
    small = omega arith

pub write_string_layout :
    (native : Bool) (b : WriteBuffer) (s : List ℕ)
    → All IsByte s
    → length s + 1 < size_mod
    → write_string native b s ≡ appended b (wire_string b.stream_state.big_endian 1 s)
unfolding write_string wire_string
write_string_layout native b s all h =
    rw
      (
        small,
        write_fixed_layout native 8 b (length s + 1),
        wire_bytes b.stream_state.big_endian (s ++ (0 ∷ []))
            (All-append IsByte s (0 ∷ []) all (omega arith)),
        serialize_write-appended,
      )
      (appended_twice b (object_bytes b.stream_state.big_endian 8 (length s + 1)) (s ++ (0 ∷ [])))
  where
    small : (length s + 1) % size_mod ≡ length s + 1
    small = omega arith

-- What `read_wstring` and `read_string` have in common.
read_count-HasInput :
    (native : Bool) (w junk : ℕ) (r : ReadBuffer) (value s rest : List ℕ)
    → All (IsChar w) s
    → length s + 1 < size_mod
    → HasInput r (wire_string r.stream_state.big_endian w s ++ rest)
    → read_wstring native w junk r value
      ≡ some (value ++ s, advance r (length (wire_string r.stream_state.big_endian w s)))
unfolding read_wstring wire_string advance
read_count-HasInput native w junk r value s rest all fits h =
    rw (read_fixed-HasInput native 8 r junk (length s + 1) _ (omega arith) front) (
      ap (λ n. read_chars native w n 0 (advance r 8) value) (add-one (length s))
      ∙ read_chars-HasInput native w 0 (advance r 8) value s rest (omega arith) all
          (HasInput-advance_fixed r.stream_state.big_endian 8 (length s + 1) _ front)
      ∙ rw (
        advance_twice r 8 (length (wire_chars r.stream_state.big_endian w (s ++ (0 ∷ [])))),
        length-append (object_bytes r.stream_state.big_endian 8 (length s + 1)),
        length-object_bytes r.stream_state.big_endian 8 (length s + 1),
      ))
  where
    front : HasInput r (
        object_bytes r.stream_state.big_endian 8 (length s + 1)
        ++ (wire_chars r.stream_state.big_endian w (s ++ (0 ∷ [])) ++ rest))
    front =
        subst (HasInput r)
          (append_assoc (object_bytes r.stream_state.big_endian 8 (length s + 1)) _ rest) h

-- What one platform wrote another reads: a number comes back as it was, and the reader then stands in
-- front of what follows. Both platforms and the stream may be of either endianness, and the variable
-- read into may hold anything; the number must fit its `w` bytes.
pub read_fixed-write_fixed :
    (native native' : Bool) (w old v : ℕ) (b : WriteBuffer) (r : ReadBuffer) (rest : List ℕ)
    → v < 256 ^ w
    → ReadsBack r b (write_fixed native w b v) rest
    → (r' : ReadBuffer) × (read_fixed native' w r old ≡ some (v, r')) × HasInput r' rest
read_fixed-write_fixed native native' w old v b r rest lt h = (
  advance r w,
  read_fixed-HasInput native' w r old v rest lt front,
  HasInput-advance_fixed r.stream_state.big_endian w v rest front,
)
  where
    front : HasInput r (object_bytes r.stream_state.big_endian w v ++ rest)
    front =
        subst (λ e. HasInput r (object_bytes e w v ++ rest)) (sym h.same_order)
          (ReadsBack-HasInput r b (object_bytes b.stream_state.big_endian w v) rest
            (rw (write_fixed_layout native w b v) at h))

string_back :
    (native : Bool) (w junk : ℕ) (r : ReadBuffer) (b : WriteBuffer) (value s rest : List ℕ)
    → All (IsChar w) s
    → length s + 1 < size_mod
    → ReadsBack r b (appended b (wire_string b.stream_state.big_endian w s)) rest
    → (r' : ReadBuffer) × (read_wstring native w junk r value ≡ some (value ++ s, r'))
      × HasInput r' rest
string_back native w junk r b value s rest all fits h = (
  _,
  read_count-HasInput native w junk r value s rest all fits front,
  HasInput-advance (wire_string r.stream_state.big_endian w s) rest front,
)
  where
    front : HasInput r (wire_string r.stream_state.big_endian w s ++ rest)
    front =
        subst (λ e. HasInput r (wire_string e w s ++ rest)) (sym h.same_order)
          (ReadsBack-HasInput r b (wire_string b.stream_state.big_endian w s) rest h)

-- A wide string that was written is appended to the string that is read into, whatever the endianness
-- of the two platforms and of the stream. Its characters are not zero and fit `wide` bytes.
pub read_wstring-write_wstring :
    (native native' : Bool) (wide junk : ℕ) (b : WriteBuffer) (r : ReadBuffer)
    (value s rest : List ℕ)
    → All (IsChar wide) s
    → length s + 1 < size_mod
    → ReadsBack r b (write_wstring native wide b s) rest
    → (r' : ReadBuffer) × (read_wstring native' wide junk r value ≡ some (value ++ s, r'))
      × HasInput r' rest
read_wstring-write_wstring native native' wide junk b r value s rest all fits h =
    string_back native' wide junk r b value s rest all fits
      (rw (write_wstring_layout native wide b s fits) at h)

pub read_string-HasInput :
    (native : Bool) (junk : ℕ) (r : ReadBuffer) (value s rest : List ℕ)
    → All (IsChar 1) s
    → length s + 1 < size_mod
    → HasInput r (wire_string r.stream_state.big_endian 1 s ++ rest)
    → read_string native junk r value
      ≡ some (value ++ s, advance r (length (wire_string r.stream_state.big_endian 1 s)))
unfolding read_string
read_string-HasInput native junk r value s rest all fits h =
    unfold read_wstring in read_count-HasInput native 1 junk r value s rest all fits h

pub IsChar-IsByte : (s : List ℕ) → All (IsChar 1) s → All IsByte s
IsChar-IsByte [] all = tt
IsChar-IsByte (c ∷ s) all = (omega arith, IsChar-IsByte s all.1)

-- The same for a string of bytes, none of them zero.
pub read_string-write_string :
    (native native' : Bool) (junk : ℕ) (b : WriteBuffer) (r : ReadBuffer) (value s rest : List ℕ)
    → All (IsChar 1) s
    → length s + 1 < size_mod
    → ReadsBack r b (write_string native b s) rest
    → (r' : ReadBuffer) × (read_string native' junk r value ≡ some (value ++ s, r'))
      × HasInput r' rest
unfolding read_string
read_string-write_string native native' junk b r value s rest all fits h =
    unfold read_wstring in
    string_back native' 1 junk r b value s rest all fits
      (rw (write_string_layout native b s (IsChar-IsByte s all) fits) at h)
