-- ===== src/Serialization/Values.antt =====
-- include/Serialization/TypeSerializer.h and TypeSerializer.cc: one serializer for each kind of value.
-- A number is below 256 to the power of its size. `native` says whether the platform is big endian,
-- and `wide` is `sizeof(wchar_t)`. A local that the source leaves uninitialised holds an arbitrary
-- number, the argument `junk`. `none` is undefined behaviour.
pub mod Fixed
pub mod Strings
pub mod RoundTrip
pub mod Sequence
mod Tests
use v8app.Base.{
  ℕ, zero, suc, ◌+◌, ◌%◌, ◌≡◌, Bool, true, false, Option, none, some, List, [], ◌∷◌, ◌++◌, arith,
  ◌==◌, if◌then◌else◌, ◌>>=◌, length, get_elem?,
}
use v8app.Serialization.Bytes.{object_bytes, object_value}
use v8app.Serialization.Swap.{swap_bytes}
use v8app.Serialization.Buffer.{
  ReadBuffer, WriteBuffer, size_mod, is_byte_swapping, serialize_read, serialize_write,
  set_read_error, set_write_error,
}

-- What a value's bytes are swapped to before a write and after a read.
abbrev pub swap_if : Bool → List ℕ → List ℕ
swap_if swapping bytes = if swapping then swap_bytes bytes else bytes

-- `TypeSerializer<T>` of a type of `w` bytes.
unfoldable pub write_fixed : Bool → ℕ → WriteBuffer → ℕ → WriteBuffer
write_fixed native w b value =
    serialize_write b (swap_if (is_byte_swapping native b.base) (object_bytes native w value))

pub read_fixed : Bool → ℕ → ReadBuffer → ℕ → Option (ℕ × ReadBuffer)
read_fixed native w r old = do
  (bytes, r') ← serialize_read r (object_bytes native w old) w
  some (object_value native (swap_if (is_byte_swapping native r'.base) bytes), r')

-- `TypeSerializer<std::string>`.
unfoldable pub write_string : Bool → WriteBuffer → List ℕ → WriteBuffer
write_string native b value =
    serialize_write (write_fixed native 8 b ((length value + 1) % size_mod)) (value ++ (0 ∷ []))

-- `inValue[i]` of a string: the terminator at its end, and undefined behind it.
abbrev char_at : List ℕ → ℕ → Option ℕ
char_at s i = if i == length s then some 0 else get_elem? s i

-- The loop of both `std::string` and `std::wstring`, over characters of `w` bytes. A character of one
-- byte is its own swap.
pub read_chars : Bool → ℕ → ℕ → ℕ → ReadBuffer → List ℕ → Option (List ℕ × ReadBuffer)
read_chars native w zero i r value = some (value, r)
read_chars native w (suc rounds) i r value = do
  c ← char_at value i
  (c', r') ← read_fixed native w r c
  read_chars native w rounds (i + 1) r' (if c' == 0 then value else value ++ (c' ∷ []))

pub read_string : Bool → ℕ → ReadBuffer → List ℕ → Option (List ℕ × ReadBuffer)
unfolding read_chars
read_string native junk r value = do
  (count, r') ← read_fixed native 8 r junk
  read_chars native 1 count 0 r' value

-- `TypeSerializer<std::wstring>`: each character is swapped on its own.
pub write_chars : Bool → ℕ → WriteBuffer → List ℕ → WriteBuffer
write_chars native w b [] = b
write_chars native w b (c ∷ value) = write_chars native w (write_fixed native w b c) value

pub write_wstring : Bool → ℕ → WriteBuffer → List ℕ → WriteBuffer
unfolding write_chars
write_wstring native wide b value =
    write_chars native wide (write_fixed native 8 b ((length value + 1) % size_mod))
      (value ++ (0 ∷ []))

pub read_wstring : Bool → ℕ → ℕ → ReadBuffer → List ℕ → Option (List ℕ × ReadBuffer)
unfolding read_chars
read_wstring native wide junk r value = do
  (count, r') ← read_fixed native 8 r junk
  read_chars native wide count 0 r' value

-- `std::strlen` and `std::wcslen` of the memory behind a pointer: `none` where no terminator stands.
str_len : List ℕ → Option ℕ
str_len [] = none
str_len (c ∷ memory) = elim (c == 0) [
  | true ↦ some 0
  | false ↦ str_len memory >>= λ n. some (suc n)
]

-- The first `n` characters of the memory behind a pointer.
front : ℕ → List ℕ → Option (List ℕ)
front zero memory = some []
front (suc n) [] = none
front (suc n) (c ∷ memory) = front n memory >>= λ cs. some (c ∷ cs)

-- `TypeSerializer<char *>`.
write_cstring : Bool → WriteBuffer → List ℕ → Option WriteBuffer
unfolding str_len front
write_cstring native b memory = do
  n ← str_len memory
  chars ← front (n + 1) memory
  some (serialize_write (write_fixed native 8 b ((n + 1) % size_mod)) chars)

read_cstring : Bool → ℕ → ReadBuffer → List ℕ → Option (List ℕ × ReadBuffer)
read_cstring native junk r memory = do
  (count, r') ← read_fixed native 8 r junk
  serialize_read r' memory count

-- `TypeSerializer<wchar_t *>`.
write_wcstring : Bool → ℕ → WriteBuffer → List ℕ → Option WriteBuffer
unfolding str_len front write_chars
write_wcstring native wide b memory = do
  n ← str_len memory
  chars ← front (n + 1) memory
  some (write_chars native wide (write_fixed native 8 b ((n + 1) % size_mod)) chars)

-- The loop that stores into `inValue[i]`: the memory from `i` on, which each round moves past.
read_into : Bool → ℕ → ℕ → ReadBuffer → List ℕ → Option (List ℕ × ReadBuffer)
read_into native w zero r memory = some (memory, r)
read_into native w (suc rounds) r [] = none
read_into native w (suc rounds) r (c ∷ memory) = do
  (c', r') ← read_fixed native w r c
  (memory', r'') ← read_into native w rounds r' memory
  some (c' ∷ memory', r'')

read_wcstring : Bool → ℕ → ℕ → ReadBuffer → List ℕ → Option (List ℕ × ReadBuffer)
unfolding read_into
read_wcstring native wide junk r memory = do
  (count, r') ← read_fixed native 8 r junk
  read_into native wide count r' memory

-- `operator<<` and `operator>>`: a serializer that returns false puts the buffer into its error state.
abbrev pub after_write : Bool × WriteBuffer → WriteBuffer
after_write (ok, b) = if ok then b else set_write_error b

abbrev pub after_read : Bool × ReadBuffer → ReadBuffer
after_read (ok, r) = if ok then r else set_read_error r
