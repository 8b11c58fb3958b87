-- ===== src/Containers/NamedIndexes/Wire.antt =====
-- The bytes of a table in a stream.
use v8app.Base.{
  ℕ, ◌+◌, ◌<◌, ◌≡◌, refl, ap, ◌∙◌, Bool, true, List, [], ◌∷◌, ◌++◌, length, append-nil, All,
}
use v8app.Serialization.Bytes.{object_bytes}
use v8app.Serialization.Buffer.{WriteBuffer, size_mod}
use v8app.Serialization.Buffer.Writes.{appended, appended_twice}
use v8app.Serialization.Values.{write_fixed, write_string}
use v8app.Serialization.Values.Fixed.{write_fixed_layout}
use v8app.Serialization.Values.Strings.{IsChar}
use v8app.Serialization.Values.RoundTrip.{wire_string, write_string_layout, IsChar-IsByte}
use v8app.Containers.NamedIndexes.{NamedIndexes, Entries, write_entries, serialize_name_indexes}

unfoldable pub wire_entry : Bool → ℕ → List ℕ → List ℕ
wire_entry big i name = object_bytes big 8 i ++ wire_string big 1 name

unfoldable pub wire_entries : Bool → Entries → List ℕ
wire_entries big [] = []
wire_entries big ((i, name) ∷ m) = wire_entry big i name ++ wire_entries big m

unfoldable pub wire_table : Bool → NamedIndexes → List ℕ
unfolding wire_entries
wire_table big n =
    object_bytes big 8 n.max_named_indexes
    ++ (object_bytes big 8 (length n.named_indexes) ++ wire_entries big n.named_indexes)

-- A name that a stream carries: bytes, none of them zero, and a count that fits `size_t`.
pub record NameFits (name : List ℕ) : Type 0 where
  pub chars : All (IsChar 1) name
  pub counted : length name + 1 < size_mod

write_entry_layout :
    (native : Bool) (b : WriteBuffer) (i : ℕ) (name : List ℕ)
    → NameFits name
    → write_string native (write_fixed native 8 b i) name
      ≡ appended b (wire_entry b.stream_state.big_endian i name)
unfolding wire_entry
write_entry_layout native b i name h = rw (write_fixed_layout native 8 b i) (
    write_string_layout native (appended b (object_bytes b.stream_state.big_endian 8 i)) name
      (IsChar-IsByte name h.chars) h.counted
    ∙ unfold appended in
      appended_twice b (object_bytes b.stream_state.big_endian 8 i)
        (wire_string b.stream_state.big_endian 1 name))

write_entries_layout :
    (native : Bool) (b : WriteBuffer) (m : Entries)
    → All (λ e. NameFits e.1) m
    → write_entries native b m ≡ appended b (wire_entries b.stream_state.big_endian m)
unfolding write_entries wire_entries appended
write_entries_layout native b [] h = rw (append-nil b.buffer)
write_entries_layout native b ((i, name) ∷ m) h = rw (write_entry_layout native b i name h.0) (
    write_entries_layout native (appended b (wire_entry b.stream_state.big_endian i name)) m h.1
    ∙ appended_twice b (wire_entry b.stream_state.big_endian i name)
        (wire_entries b.stream_state.big_endian m))

-- `SerializeNameIndexes` appends the table in the byte order of the stream, on every platform.
pub serialize_layout :
    (native : Bool) (n : NamedIndexes) (b : WriteBuffer)
    → All (λ e. NameFits e.1) n.named_indexes
    → serialize_name_indexes native n b
      ≡ (true, appended b (wire_table b.stream_state.big_endian n))
unfolding serialize_name_indexes wire_table
serialize_layout native n b h =
    ap (λ b'. (true, b'))
      (rw
        (
          write_fixed_layout native 8 b n.max_named_indexes,
          write_fixed_layout native 8
              (appended b (object_bytes b.stream_state.big_endian 8 n.max_named_indexes))
              (length n.named_indexes),
          write_entries_layout native _ n.named_indexes h,
          appended_twice,
          appended_twice,
        )
        (unfold appended in refl))
