-- ===== src/Serialization/Buffer/Writes.antt =====
-- What `SerializeWrite` does.
use v8app.Base.{
  ℕ, ◌<◌, ◌≡◌, arith, length, drop-append, length-append, ap, List, [], ◌∷◌, ◌++◌, append-nil,
  append_assoc,
}
use v8app.Serialization.Buffer.{ReadBuffer, WriteBuffer, serialize_write, size_mod}
use v8app.Serialization.Buffer.Reads.{HasInput}

-- A writer with `bytes` behind what it held.
unfoldable pub appended : WriteBuffer → List ℕ → WriteBuffer
appended w bytes = record w { base = record (w.base) { buffer = w.buffer ++ bytes } }

pub serialize_write-appended :
    (w : WriteBuffer) (bytes : List ℕ) → serialize_write w bytes ≡ appended w bytes
unfolding serialize_write appended
serialize_write-appended w [] = rw (append-nil w.buffer)
serialize_write-appended w (b ∷ bytes) = rw (
  serialize_write-appended (record w { base = record (w.base) { buffer = w.buffer ++ (b ∷ []) } })
      bytes,
  append_assoc w.buffer (b ∷ []) bytes,
)

pub appended_twice :
    (w : WriteBuffer) (xs ys : List ℕ) → appended (appended w xs) ys ≡ appended w (xs ++ ys)
unfolding appended
appended_twice w xs ys = rw (append_assoc w.buffer xs ys)

-- A reader over what a writer holds, that stands where the writer stood before it wrote `bytes`.
pub record ReadsBack (r : ReadBuffer) (before after : WriteBuffer) (rest : List ℕ) : Type 0 where
  pub same_order : r.stream_state.big_endian ≡ before.stream_state.big_endian
  pub content : r.buffer ≡ after.buffer ++ rest
  pub stands : r.read_pos ≡ length before.buffer
  pub fits : length r.buffer < size_mod

pub ReadsBack-HasInput :
    (r : ReadBuffer) (b : WriteBuffer) (bytes rest : List ℕ)
    → ReadsBack r b (appended b bytes) rest
    → HasInput r (bytes ++ rest)
unfolding appended
ReadsBack-HasInput r b bytes rest h = record {
  rest_is =
      rw (h.stands, h.content, append_assoc b.buffer bytes rest)
        (drop-append b.buffer (bytes ++ rest));
  in_bounds = omega (
    arith,
    h.stands,
    ap length h.content,
    length-append (b.buffer ++ bytes) rest,
    length-append b.buffer bytes,
    length-append bytes rest,
  );
  fits = h.fits;
}
