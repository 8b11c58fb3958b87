-- ===== src/Containers/NamedIndexes.antt =====
-- include/Containers/NamedIndexes.h and NamedIndexes.cc: names for the indexes of a snapshot, and
-- their serialization. `std::map<size_t, std::string>` is the list of its entries by rising index.
pub mod Laws
pub mod Wire
pub mod RoundTrip
mod Tests
use v8app.Base.{
  ℕ, zero, suc, ◌+◌, ◌-◌, ◌%◌, ◌^◌, ◌≡◌, Bool, true, false, ◌||◌, Option, none, some, List, [], ◌∷◌,
  arith, ltb, ◌==◌, list_eq, if◌then◌else◌, ◌>>=◌, length,
}
use v8app.Serialization.Buffer.{ReadBuffer, WriteBuffer, size_mod, at_end}
use v8app.Serialization.Values.{write_fixed, read_fixed, write_string, read_string}

abbrev pub Entries : Type 0
Entries = List (ℕ × List ℕ)

pub record NamedIndexes : Type 0 where
  pub max_named_indexes : ℕ
  pub named_indexes : Entries

pub new_named_indexes : ℕ → NamedIndexes
new_named_indexes max_allowed = record { max_named_indexes = max_allowed; named_indexes = [] }

-- `std::map::find` and `std::map::insert`; the latter is `none` if the index is there already.
pub find_entry : ℕ → Entries → Option (List ℕ)
find_entry i [] = none
find_entry i ((j, name) ∷ m) = if i == j then some name else find_entry i m

pub insert_entry : ℕ → List ℕ → Entries → Option Entries
insert_entry i name [] = some ((i, name) ∷ [])
insert_entry i name ((j, other) ∷ m) =
    let later = insert_entry i name m >>= λ m'. some ((j, other) ∷ m') in
    if ltb i j then some ((i, name) ∷ (j, other) ∷ m) else if i == j then none else later

pub get_name_from_index : NamedIndexes → ℕ → List ℕ
unfolding find_entry
get_name_from_index n i = elim (find_entry i n.named_indexes) [ some name ↦ name | none ↦ [] ]

pub index_of : List ℕ → Entries → Option ℕ
index_of name [] = none
index_of name ((j, other) ∷ m) = if list_eq other name then some j else index_of name m

pub get_index_for_name : NamedIndexes → List ℕ → ℕ
unfolding index_of
get_index_for_name n name = elim (index_of name n.named_indexes) [
  | some i ↦ i
  | none ↦ n.max_named_indexes
]

pub is_taken : ℕ → List ℕ → Entries → Bool
is_taken i name [] = false
is_taken i name ((j, other) ∷ m) = (j == i || list_eq other name) || is_taken i name m

pub add_named_index : NamedIndexes → ℕ → List ℕ → Bool × NamedIndexes
unfolding is_taken insert_entry
add_named_index n i name =
    if list_eq name []
    then (false, n)
    else if is_taken i name n.named_indexes
    then (false, n)
    else elim (insert_entry i name n.named_indexes) [
      | some m ↦ (true, record n { named_indexes = m })
      | none ↦ (false, n)
    ]

write_entries : Bool → WriteBuffer → Entries → WriteBuffer
write_entries native b [] = b
write_entries native b ((i, name) ∷ m) =
    write_entries native (write_string native (write_fixed native 8 b i) name) m

pub serialize_name_indexes : Bool → NamedIndexes → WriteBuffer → Bool × WriteBuffer
unfolding write_entries
serialize_name_indexes native n b =
    let b' = write_fixed native 8 b n.max_named_indexes in
    (true, write_entries native (write_fixed native 8 b' (length n.named_indexes)) n.named_indexes)

-- `(int)index`, which the map's key type widens to `size_t` again with its sign.
abbrev pub int_key : ℕ → ℕ
int_key i = if ltb (i % 2 ^ 32) (2 ^ 31) then i % 2 ^ 32 else size_mod - 2 ^ 32 + i % 2 ^ 32

-- The loop, with the rounds that are left. `junk` gives what the locals of each round start with.
read_entries :
    Bool → (ℕ → ℕ) → ℕ → ReadBuffer → NamedIndexes → Option (Bool × NamedIndexes × ReadBuffer)
read_entries native junk zero r n = some (true, n, r)
read_entries native junk (suc rounds) r n = do
  (i, r₁) ← read_fixed native 8 r (junk rounds)
  (name, r₂) ← read_string native (junk rounds) r₁ []
  if r₂.error then some (false, n, r₂) else elim (insert_entry (int_key i) name n.named_indexes) [
    | some m ↦ read_entries native junk rounds r₂ (record n { named_indexes = m })
    | none ↦ some (false, n, r₂)
  ]

pub deserialize_name_indexes :
    Bool → (ℕ → ℕ) → NamedIndexes → ReadBuffer → Option (Bool × NamedIndexes × ReadBuffer)
unfolding read_entries at_end
deserialize_name_indexes native junk n r = if at_end r then some (false, n, r) else do
  (max_allowed, r₁) ← read_fixed native 8 r n.max_named_indexes
  (count, r₂) ← read_fixed native 8 r₁ (junk 0)
  read_entries native junk count r₂ (record n { max_named_indexes = max_allowed })
