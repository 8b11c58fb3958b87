-- ===== src/Containers/NamedIndexes/Tests.antt =====
-- Runs of a table, and its theorems at concrete inputs.
use v8app.Base.{ℕ, ◌≡◌, ◌≢◌, ◌⊎◌, refl, true, false, none, some, List, [], ◌∷◌, arith}
use v8app.Serialization.Swap.{swap_bytes}
use v8app.Serialization.Bytes.{object_bytes}
use v8app.Serialization.Buffer.{BaseBuffer, ReadBuffer, WriteBuffer, serialize_write}
use v8app.Serialization.Buffer.Reads.{HasInput}
use v8app.Serialization.Buffer.Writes.{ReadsBack}
use v8app.Serialization.Values.{write_fixed, write_string}
use v8app.Containers.NamedIndexes.{
  NamedIndexes, find_entry, index_of, add_named_index, serialize_name_indexes,
  deserialize_name_indexes, new_named_indexes,
}
use v8app.Containers.NamedIndexes.Laws.{IsValid, Added, add_named_index_lem}
use v8app.Containers.NamedIndexes.RoundTrip.{TableFits, deserialize-serialize}

abbrev app : List ℕ
app = b'a' ∷ b'p' ∷ b'p' ∷ []

abbrev runtime : List ℕ
runtime = b'r' ∷ b't' ∷ []

abbrev table : NamedIndexes
table = record { max_named_indexes = 4; named_indexes = (1, app) ∷ (3, runtime) ∷ [] }

table-IsValid : IsValid table
unfolding index_of
table-IsValid = record { rising = omega arith; distinct = (refl, refl, (refl, refl, tt)) }

add_between :
    (add_named_index table 2 (b'x' ∷ [])).1.named_indexes
    ≡ (1, app) ∷ (2, b'x' ∷ []) ∷ (3, runtime) ∷ []
unfolding add_named_index
add_between = refl

add_used_name : add_named_index table 2 app ≡ (false, table)
unfolding add_named_index
add_used_name = refl

-- The index that stands for "no such name" can itself be given a name.
add_max : (add_named_index table 4 (b'x' ∷ [])).0 ≡ true
unfolding add_named_index
add_max = refl

add_named_index_lem_example :
    ((n' : NamedIndexes) × (add_named_index table 1 (b'x' ∷ []) ≡ (true, n'))
      × Added table 1 (b'x' ∷ []) n')
    ⊎ ((add_named_index table 1 (b'x' ∷ []) ≡ (false, table))
        × ((◌≡◌ {A = List ℕ} (b'x' ∷ []) [])
            ⊎ ((find_entry 1 table.named_indexes ≢ none)
                ⊎ (index_of (b'x' ∷ []) table.named_indexes ≢ none))))
add_named_index_lem_example = add_named_index_lem table 1 (b'x' ∷ []) table-IsValid

abbrev small : NamedIndexes
small = record { max_named_indexes = 4; named_indexes = (2, b'x' ∷ []) ∷ [] }

small-TableFits : TableFits small
unfolding index_of
small-TableFits = record {
  valid = record { rising = omega arith; distinct = (refl, refl, tt) };
  entries = (
    record {
      int_index = omega arith;
      name_fits = record { chars = omega arith; counted = omega arith };
    },
    tt,
  );
  max_fits = omega arith;
  counted = omega arith;
}

abbrev base : List ℕ → BaseBuffer
base bytes = record {
  buffer = bytes;
  stream_state = record { reader = false; big_endian = true };
  error = false;
}

abbrev zeros : List ℕ → List ℕ
zeros bytes = 0 ∷ 0 ∷ 0 ∷ 0 ∷ 0 ∷ 0 ∷ 0 ∷ bytes

abbrev small_stream : List ℕ
small_stream = zeros (4 ∷ zeros (1 ∷ zeros (2 ∷ zeros (2 ∷ b'x' ∷ 0 ∷ 8 ∷ []))))

abbrev small_reader : ReadBuffer
small_reader = record { base = base small_stream; read_pos = 0 }

abbrev empty_writer : WriteBuffer
empty_writer = record { base = base [] }

small_back :
    ReadsBack small_reader empty_writer (serialize_name_indexes false small empty_writer).1 (8 ∷ [])
unfolding serialize_name_indexes write_string write_fixed swap_bytes object_bytes serialize_write
small_back = record { same_order = refl; content = refl; stands = refl; fits = omega arith }

deserialize-serialize_example :
    (r' : ReadBuffer) × (deserialize_name_indexes true
        (λ i. i)
        (new_named_indexes 1024)
        small_reader
      ≡ some (true, small, r'))
    × HasInput r' (8 ∷ [])
deserialize-serialize_example =
    deserialize-serialize false true (λ i. i) small 1024 empty_writer small_reader (8 ∷ [])
      small-TableFits refl small_back
