-- ===== src/Serialization/Buffer.antt =====
-- include/Serialization/BaseBuffer.h, ReadBuffer.h, WriteBuffer.h and their .cc files. The capacity
-- of a buffer is not modelled. `native` says whether the platform is big endian. A result `none` is
-- undefined behaviour: an access outside of the memory that an index or a pointer may reach.
pub mod Reads
pub mod Writes
use v8app.Base.{
  ℕ, zero, suc, ◌+◌, ◌-◌, ◌%◌, ◌^◌, ◌≡◌, Bool, true, false, not, ◌&&◌, ◌||◌, Option, none, some,
  List, [], ◌∷◌, ◌++◌, arith, ltb, leb, if◌then◌else◌, ◌>>=◌, length, get_elem?, drop,
}

pub record StreamState : Type 0 where
  pub reader : Bool
  pub big_endian : Bool

pub record BaseBuffer : Type 0 where
  pub buffer : List ℕ
  pub stream_state : StreamState
  pub error : Bool

pub record ReadBuffer : Type 0 where
  pub base : BaseBuffer
  pub open base use *
  pub read_pos : ℕ

pub record WriteBuffer : Type 0 where
  pub base : BaseBuffer
  pub open base use *

abbrev pub size_mod : ℕ
size_mod = 2 ^ 64

-- The content that a constructor takes over: a null pointer gives an empty buffer.
abbrev initial_content : Option (List ℕ) → List ℕ
initial_content none = []
initial_content (some bytes) = bytes

-- The state that `ReadBuffer` and `WriteBuffer` set: the platform's endianness is the default.
new_base : Bool → Bool → Option (List ℕ) → BaseBuffer
new_base native reader content = record {
  buffer = initial_content content;
  stream_state = record { reader = reader; big_endian = native };
  error = false;
}

unfoldable new_reader : Bool → Option (List ℕ) → ReadBuffer
unfolding new_base
new_reader native content = record { base = new_base native true content; read_pos = 0 }

unfoldable new_writer : Bool → Option (List ℕ) → WriteBuffer
unfolding new_base
new_writer native content = record { base = new_base native false content }

-- `ReadBuffer(ReadBuffer &)`.
copy_reader : ReadBuffer → ReadBuffer
copy_reader r = record {
  base = record { buffer = r.buffer; stream_state = r.stream_state; error = r.error };
  read_pos = r.read_pos;
}

-- `ReadBuffer(ReadBuffer &&)`, with the source as it is left. The named argument is an lvalue, so the
-- base is copied and not moved.
unfoldable move_reader : ReadBuffer → ReadBuffer × ReadBuffer
unfolding copy_reader
move_reader r = (copy_reader r, record r { read_pos = 0 })

abbrev pub is_byte_swapping : Bool → BaseBuffer → Bool
is_byte_swapping native b =
    (b.stream_state.big_endian && not native) || (not b.stream_state.big_endian && native)

pub set_read_error : ReadBuffer → ReadBuffer
set_read_error r = record r { base = record (r.base) { error = true } }

unfoldable pub set_write_error : WriteBuffer → WriteBuffer
set_write_error w = record w { base = record (w.base) { error = true } }

-- The bytes that the loop of `SerializeRead` reads: `m_Buffer[m_ReadPos]`, `m_ReadPos++`.
fetch : ℕ → ℕ → List ℕ → Option (List ℕ)
fetch zero pos buffer = some []
fetch (suc n) pos buffer = do b ← get_elem? buffer pos; bs ← fetch n (pos + 1) buffer; some (b ∷ bs)

-- The bytes stored over the front of the destination.
store : List ℕ → List ℕ → Option (List ℕ)
store [] dest = some dest
store (b ∷ bs) [] = none
store (b ∷ bs) (d ∷ dest) = do rest ← store bs dest; some (b ∷ rest)

-- `SerializeRead(inBytes, inSize)`, with the memory behind `inBytes` before and after.
unfoldable pub serialize_read : ReadBuffer → List ℕ → ℕ → Option (List ℕ × ReadBuffer)
unfolding fetch store set_read_error
serialize_read r dest size =
    if ltb (length r.buffer) ((r.read_pos + size) % size_mod)
    then some (dest, set_read_error r)
    else do
      bytes ← fetch size r.read_pos r.buffer
      dest' ← store bytes dest
      some (dest', record r { read_pos = r.read_pos + size })

unfoldable pub at_end : ReadBuffer → Bool
at_end r = leb (length r.buffer) r.read_pos

-- `Peek`: the position goes back unless the buffer is in its error state.
peek : ReadBuffer → List ℕ → ℕ → Option (List ℕ × ReadBuffer)
peek r dest size = do
  (dest', r') ← serialize_read r dest size
  some (dest', if r'.error then r' else record r' { read_pos = r'.read_pos - size })

unfoldable reset_reader : ReadBuffer → ReadBuffer
reset_reader r = record r { read_pos = 0 }

-- `SerializeWrite`: the bytes go to the end of the buffer.
unfoldable pub serialize_write : WriteBuffer → List ℕ → WriteBuffer
serialize_write w [] = w
serialize_write w (b ∷ bytes) =
    serialize_write (record w { base = record (w.base) { buffer = w.buffer ++ (b ∷ []) } }) bytes

unfoldable reset_writer : WriteBuffer → WriteBuffer
reset_writer w = record w { base = record (w.base) { buffer = [] } }
