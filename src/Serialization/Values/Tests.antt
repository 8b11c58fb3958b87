-- ===== src/Serialization/Values/Tests.antt =====
-- Runs of the serializers, and their theorems at concrete inputs.
use v8app.Base.{ℕ, ◌≡◌, refl, Bool, true, false, none, some, List, [], ◌∷◌, arith}
use v8app.Serialization.Bytes.{object_bytes, object_value}
use v8app.Serialization.Swap.{swap_bytes}
use v8app.Serialization.Buffer.{
  BaseBuffer, ReadBuffer, WriteBuffer, serialize_read, serialize_write,
}
use v8app.Serialization.Buffer.Reads.{HasInput, serialize_read_wraps}
use v8app.Serialization.Buffer.Writes.{appended, ReadsBack}
use v8app.Serialization.Values.{write_fixed, read_fixed, write_string, read_string}
use v8app.Serialization.Values.Fixed.{write_fixed_layout}
use v8app.Serialization.Values.RoundTrip.{read_fixed-write_fixed, read_string-write_string}

abbrev stream : Bool → List ℕ → BaseBuffer
stream big bytes = record {
  buffer = bytes;
  stream_state = record { reader = false; big_endian = big };
  error = false;
}

abbrev writer : Bool → List ℕ → WriteBuffer
writer big bytes = record { base = stream big bytes }

abbrev reader : Bool → List ℕ → ℕ → ReadBuffer
reader big bytes pos = record { base = stream big bytes; read_pos = pos }

swap_four : swap_bytes (1 ∷ 2 ∷ 3 ∷ 4 ∷ []) ≡ 4 ∷ 3 ∷ 2 ∷ 1 ∷ []
unfolding swap_bytes
swap_four = refl

-- A little-endian platform writes a big-endian stream.
write_big :
    write_fixed false 4 (writer true (9 ∷ [])) 0x01020304 ≡ writer true (9 ∷ 1 ∷ 2 ∷ 3 ∷ 4 ∷ [])
unfolding write_fixed swap_bytes object_bytes serialize_write
write_big = refl

write_text :
    write_string false (writer false []) (b'h' ∷ b'i' ∷ [])
    ≡ writer false (3 ∷ 0 ∷ 0 ∷ 0 ∷ 0 ∷ 0 ∷ 0 ∷ 0 ∷ b'h' ∷ b'i' ∷ 0 ∷ [])
unfolding write_string write_fixed swap_bytes object_bytes serialize_write
write_text = refl

-- A text with one character missing: the index runs past the end of the string that is read into.
read_cut_text : read_string false 0 (reader false (3 ∷ 0 ∷ 0 ∷ 0 ∷ 0 ∷ 0 ∷ 0 ∷ 0 ∷ []) 0) [] ≡ none
unfolding read_string read_fixed swap_bytes object_bytes object_value serialize_read
read_cut_text = refl

write_fixed_layout_example :
    write_fixed true 2 (writer false (7 ∷ [])) 0x1234
    ≡ appended (writer false (7 ∷ [])) (object_bytes false 2 0x1234)
write_fixed_layout_example = write_fixed_layout true 2 (writer false (7 ∷ [])) 0x1234

serialize_read_wraps_example :
    serialize_read (reader false (1 ∷ 2 ∷ 3 ∷ []) 1) [] 0xffff_ffff_ffff_ffff ≡ none
serialize_read_wraps_example =
    serialize_read_wraps (reader false (1 ∷ 2 ∷ 3 ∷ []) 1) [] 0xffff_ffff_ffff_ffff (omega arith)
      (omega arith) (omega arith) (omega arith)

number_back :
    ReadsBack
      (reader true (9 ∷ 1 ∷ 2 ∷ 5 ∷ []) 1)
      (writer true (9 ∷ []))
      (write_fixed false 2 (writer true (9 ∷ [])) 0x0102)
      (5 ∷ [])
unfolding write_fixed swap_bytes object_bytes serialize_write
number_back = record { same_order = refl; content = refl; stands = refl; fits = omega arith }

read_fixed-write_fixed_example :
    (r' : ReadBuffer) × (read_fixed true 2 (reader true (9 ∷ 1 ∷ 2 ∷ 5 ∷ []) 1) 77
      ≡ some (0x0102, r'))
    × HasInput r' (5 ∷ [])
read_fixed-write_fixed_example =
    read_fixed-write_fixed false true 2 77 0x0102 (writer true (9 ∷ []))
      (reader true (9 ∷ 1 ∷ 2 ∷ 5 ∷ []) 1) (5 ∷ []) (omega arith) number_back

abbrev text_stream : List ℕ
text_stream = 3 ∷ 0 ∷ 0 ∷ 0 ∷ 0 ∷ 0 ∷ 0 ∷ 0 ∷ b'h' ∷ b'i' ∷ 0 ∷ 5 ∷ []

text_back :
    ReadsBack
      (reader false text_stream 0)
      (writer false [])
      (write_string false (writer false []) (b'h' ∷ b'i' ∷ []))
      (5 ∷ [])
unfolding write_string write_fixed swap_bytes object_bytes serialize_write
text_back = record { same_order = refl; content = refl; stands = refl; fits = omega arith }

read_string-write_string_example :
    (r' : ReadBuffer) × (read_string true 1000 (reader false text_stream 0) (b'o' ∷ [])
      ≡ some (b'o' ∷ b'h' ∷ b'i' ∷ [], r'))
    × HasInput r' (5 ∷ [])
read_string-write_string_example =
    read_string-write_string false true 1000 (writer false []) (reader false text_stream 0)
      (b'o' ∷ []) (b'h' ∷ b'i' ∷ []) (5 ∷ []) (omega arith) (omega arith) text_back
