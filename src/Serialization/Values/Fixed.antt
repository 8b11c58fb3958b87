-- ===== src/Serialization/Values/Fixed.antt =====
-- Numbers in a stream: their layout does not depend on the platform, and they read back.
use v8app.Base.{
  ℕ, ◌^◌, ◌<◌, ◌≡◌, refl, sym, ap, subst, ◌∙◌, Bool, true, false, not, ◌&&◌, ◌||◌, some, List, [],
  ◌++◌, append-nil,
}
use v8app.Serialization.Bytes.{
  object_bytes, object_value, reverse-object_bytes, object_value-object_bytes, length-object_bytes,
}
use v8app.Serialization.Swap.{swap_bytes-reverse, swap_bytes_twice}
use v8app.Serialization.Buffer.{ReadBuffer, WriteBuffer, is_byte_swapping, serialize_read}
use v8app.Serialization.Buffer.Reads.{HasInput, HasInput-advance, advance, serialize_read-HasInput}
use v8app.Serialization.Buffer.Writes.{appended, serialize_write-appended}
use v8app.Serialization.Values.{swap_if, write_fixed, read_fixed}

-- The swap that a stream of endianness `big` makes on a platform of endianness `native`.
swap_if-object_bytes :
    (native big : Bool) (w v : ℕ)
    → swap_if ((big && not native) || (not big && native)) (object_bytes native w v)
      ≡ object_bytes big w v
swap_if-object_bytes true true w v = refl
swap_if-object_bytes true false w v =
    swap_bytes-reverse (object_bytes true w v) ∙ reverse-object_bytes true w v
swap_if-object_bytes false true w v =
    swap_bytes-reverse (object_bytes false w v) ∙ reverse-object_bytes false w v
swap_if-object_bytes false false w v = refl

swap_if_back :
    (native big : Bool) (w v : ℕ)
    → swap_if ((big && not native) || (not big && native)) (object_bytes big w v)
      ≡ object_bytes native w v
swap_if_back native big w v =
    ap (swap_if ((big && not native) || (not big && native)))
      (sym (swap_if-object_bytes native big w v))
    ∙ twice ((big && not native) || (not big && native)) (object_bytes native w v)
  where
    twice : (s : Bool) (bytes : List ℕ) → swap_if s (swap_if s bytes) ≡ bytes
    twice true bytes = swap_bytes_twice bytes
    twice false bytes = refl

-- On every platform a write appends the value in the byte order of the stream.
pub write_fixed_layout :
    (native : Bool) (w : ℕ) (b : WriteBuffer) (v : ℕ)
    → write_fixed native w b v ≡ appended b (object_bytes b.stream_state.big_endian w v)
unfolding write_fixed
write_fixed_layout native w b v =
    serialize_write-appended b _
    ∙ ap (appended b) (swap_if-object_bytes native b.stream_state.big_endian w v)

-- On every platform a read of such bytes gives the value, whatever the variable held.
pub read_fixed-HasInput :
    (native : Bool) (w : ℕ) (r : ReadBuffer) (old v : ℕ) (rest : List ℕ)
    → v < 256 ^ w
    → HasInput r (object_bytes r.stream_state.big_endian w v ++ rest)
    → read_fixed native w r old ≡ some (v, advance r w)
unfolding read_fixed
read_fixed-HasInput native w r old v rest lt h = rw got (ap (λ n. some (n, advance r w)) value)
  where
    big : Bool
    big = r.stream_state.big_endian

    got : serialize_read r (object_bytes native w old) w ≡ some (object_bytes big w v, advance r w)
    got =
        rw (append-nil, append-nil, length-object_bytes big w v) at
          (serialize_read-HasInput r (object_bytes big w v) rest (object_bytes native w old) [] h
            (length-object_bytes big w v ∙ sym (length-object_bytes native w old)))

    value :
        object_value native
          (swap_if (is_byte_swapping native (advance r w).base) (object_bytes big w v))
        ≡ v
    value =
        unfold advance in
        ap (object_value native) (swap_if_back native big w v)
        ∙ object_value-object_bytes native w v lt

pub HasInput-advance_fixed :
    {r : ReadBuffer} (big : Bool) (w v : ℕ) (rest : List ℕ)
    → HasInput r (object_bytes big w v ++ rest)
    → HasInput (advance r w) rest
HasInput-advance_fixed {r} big w v rest h =
    subst (λ n. HasInput (advance r n) rest) (length-object_bytes big w v)
      (HasInput-advance (object_bytes big w v) rest h)
