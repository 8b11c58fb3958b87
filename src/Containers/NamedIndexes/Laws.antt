-- ===== src/Containers/NamedIndexes/Laws.antt =====
-- Indexes and names stand for one another: what `AddNamedIndex` keeps, and the two lookups.
use v8app.Base.{
  ℕ, ◌+◌, ◌≤◌, ◌<◌, ◌≡◌, ◌≢◌, ◌⊎◌, inl, inr, refl, true, false, none, some, List, [], ◌∷◌, arith,
  ltb, ◌==◌, list_eq, list_eq_iff, list_eq_refl, if◌then◌else◌, Bool-cases, Option-cases,
}
use v8app.Containers.NamedIndexes.{
  NamedIndexes, Entries, find_entry, insert_entry, index_of, is_taken, get_name_from_index,
  get_index_for_name, add_named_index,
}

-- The indexes rise, and all are at least `lo`.
abbrev pub Rising : ℕ → Entries → Type 0
Rising lo [] = Unit {0}
Rising lo ((i, name) ∷ m) = (lo ≤ i) × Rising (i + 1) m

-- No name is empty, and none stands twice.
abbrev DistinctNames : Entries → Type 0
DistinctNames [] = Unit {0}
DistinctNames ((i, name) ∷ m) =
    (list_eq name [] ≡ false) × (index_of name m ≡ none) × DistinctNames m

pub record IsValid (n : NamedIndexes) : Type 0 where
  pub rising : Rising 0 n.named_indexes
  pub distinct : DistinctNames n.named_indexes

Rising-lower : (lo k : ℕ) (m : Entries) → lo ≤ k → Rising k m → Rising lo m
Rising-lower lo k [] h r = tt
Rising-lower lo k ((i, name) ∷ m) h r = (omega arith, r.1)

not_taken :
    (i : ℕ) (name : List ℕ) (m : Entries) → is_taken i name m ≡ false → index_of name m ≡ none
unfolding is_taken index_of
not_taken i name [] h = refl
not_taken i name ((j, other) ∷ m) h = ground (arith, not_taken i name m)

-- What an insertion of a free index does to the map.
insert_entry_cases :
    (lo i : ℕ) (name : List ℕ) (m : Entries)
    → Rising lo m
    → lo ≤ i
    → is_taken i name m ≡ false
    → (m' : Entries) × (insert_entry i name m ≡ some m') × Rising lo m'
unfolding is_taken insert_entry
insert_entry_cases lo i name [] r h free = ((i, name) ∷ [], refl, omega arith)
insert_entry_cases lo i name ((j, other) ∷ m) r h free = elim (Bool-cases (ltb i j)) [
  | inl below ↦ ((i, name) ∷ (j, other) ∷ m, rw below, (h, (ground arith, r.1)))
  | inr above ↦
      let (m', e, r') = insert_entry_cases (j + 1) i name m r.1 (ground arith) (ground arith) in
      ((j, other) ∷ m', ground arith, (r.0, r'))
]

find-insert :
    (i k : ℕ) (name : List ℕ) (m m' : Entries)
    → insert_entry i name m ≡ some m'
    → find_entry k m' ≡ (if k == i then some name else find_entry k m)
unfolding insert_entry find_entry
find-insert i k name [] m' e = ground arith
find-insert i k name ((j, other) ∷ m) [] e = ground arith
find-insert i k name ((j, other) ∷ m) ((j', other') ∷ m') e =
    ground (arith, find-insert i k name m m')

index_of-insert :
    (i : ℕ) (name other : List ℕ) (m m' : Entries)
    → insert_entry i name m ≡ some m'
    → index_of name m ≡ none
    → index_of other m' ≡ (if list_eq name other then some i else index_of other m)
unfolding insert_entry index_of
index_of-insert i name other [] m' e h = ground arith
index_of-insert i name other ((j, x) ∷ m) [] e h = ground arith
index_of-insert i name other ((j, x) ∷ m) ((j', x') ∷ m') e h = ground (
  arith,
  list_eq_iff name other,
  list_eq_iff x other,
  list_eq_iff x name,
  index_of-insert i name other m m',
)

insert_entry-DistinctNames :
    (i : ℕ) (name : List ℕ) (m m' : Entries)
    → insert_entry i name m ≡ some m'
    → list_eq name [] ≡ false
    → index_of name m ≡ none
    → DistinctNames m
    → DistinctNames m'
unfolding insert_entry index_of
insert_entry-DistinctNames i name [] m' e ne fresh d = ground arith
insert_entry-DistinctNames i name ((j, x) ∷ m) [] e ne fresh d = tt
insert_entry-DistinctNames i name ((j, x) ∷ m) ((j', x') ∷ m') e ne fresh d = ground (
  arith,
  index_of-insert i name x m m',
  list_eq_iff name x,
  list_eq_iff x name,
  insert_entry-DistinctNames i name m m',
)

taken_iff :
    (i : ℕ) (name : List ℕ) (m : Entries)
    → (is_taken i name m ≡ true)
      ⊎ ((is_taken i name m ≡ false) × (find_entry i m ≡ none) × (index_of name m ≡ none))
unfolding is_taken find_entry index_of
taken_iff i name [] = inr (refl, refl, refl)
taken_iff i name ((j, other) ∷ m) = ground (arith, taken_iff i name m)

taken-is_used :
    (i : ℕ) (name : List ℕ) (m : Entries)
    → is_taken i name m ≡ true
    → (find_entry i m ≢ none) ⊎ (index_of name m ≢ none)
unfolding is_taken find_entry index_of
taken-is_used i name [] h = cc
taken-is_used i name ((j, other) ∷ m) h = elim (Bool-cases (j == i)) [
  | inl e ↦ inl (λ k. ground arith)
  | inr e ↦ elim (Bool-cases (list_eq other name)) [
    | inl f ↦ inr (λ k. ground arith)
    | inr f ↦ elim (taken-is_used i name m (ground arith)) [
      | inl k ↦ inl (λ q. k (ground arith))
      | inr k ↦ inr (λ q. k (ground arith))
    ]
  ]
]

-- An accepted entry: the name was not empty, neither part was in use, and every lookup answers as
-- before but for the new pair.
pub record Added (n : NamedIndexes) (i : ℕ) (name : List ℕ) (n' : NamedIndexes) : Type 0 where
  pub still_valid : IsValid n'
  pub named : name ≢ []
  pub free_index : find_entry i n.named_indexes ≡ none
  pub free_name : index_of name n.named_indexes ≡ none
  pub same_max : n'.max_named_indexes ≡ n.max_named_indexes
  pub names :
      (k : ℕ) → get_name_from_index n' k ≡ (if k == i then name else get_name_from_index n k)
  pub indexes :
      (other : List ℕ)
      → get_index_for_name n' other ≡ (if list_eq name other then i else get_index_for_name n other)

add_fresh :
    (n : NamedIndexes) (i : ℕ) (name : List ℕ)
    → IsValid n
    → list_eq name [] ≡ false
    → is_taken i name n.named_indexes ≡ false
    → (find_entry i n.named_indexes ≡ none) × (index_of name n.named_indexes ≡ none)
    → (n' : NamedIndexes) × (add_named_index n i name ≡ (true, n')) × Added n i name n'
unfolding add_named_index get_name_from_index get_index_for_name
add_fresh n i name v ne free (fi, fn) =
    let (m, e, r) = insert_entry_cases 0 i name n.named_indexes v.rising (omega arith) free in
    (
      record n { named_indexes = m },
      ground arith,
      record {
        still_valid = record {
          rising = r;
          distinct = insert_entry-DistinctNames i name n.named_indexes m e ne fn v.distinct;
        };
        named = λ q. ground (arith, list_eq_iff name []);
        free_index = fi;
        free_name = fn;
        same_max = refl;
        names = λ k. ground (arith, find-insert i k name n.named_indexes m e);
        indexes = λ other. ground (arith, index_of-insert i name other n.named_indexes m e fn);
      },
    )

-- `AddNamedIndex` on a valid table either adds the pair, or returns false with the table as it was
-- because the name is empty or one of the two parts is in use.
pub add_named_index_lem :
    (n : NamedIndexes) (i : ℕ) (name : List ℕ)
    → IsValid n
    → ((n' : NamedIndexes) × (add_named_index n i name ≡ (true, n')) × Added n i name n')
      ⊎ ((add_named_index n i name ≡ (false, n))
          × ((name ≡ [])
              ⊎ ((find_entry i n.named_indexes ≢ none) ⊎ (index_of name n.named_indexes ≢ none))))
unfolding add_named_index
add_named_index_lem n i name v = elim (Bool-cases (list_eq name [])) [
  | inl empty ↦ inr (ground arith, inl ((list_eq_iff name []).0 empty))
  | inr ne ↦ elim (taken_iff i name n.named_indexes) [
    | inl taken ↦ inr (ground arith, inr (taken-is_used i name n.named_indexes taken))
    | inr (free, fi, fn) ↦ inl (add_fresh n i name v ne free (fi, fn))
  ]
]

index_of-find :
    (i : ℕ) (name : List ℕ) (m : Entries)
    → DistinctNames m
    → find_entry i m ≡ some name
    → index_of name m ≡ some i
unfolding find_entry index_of
index_of-find i name [] d e = cc
index_of-find i name ((j, x) ∷ m) d e =
    ground
      (arith, list_eq_iff x name, list_eq_iff name x, list_eq_refl name, index_of-find i name m)

find_above : (lo i : ℕ) (m : Entries) → Rising lo m → i < lo → find_entry i m ≡ none
unfolding find_entry
find_above lo i [] r h = refl
find_above lo i ((j, x) ∷ m) r h = ground (arith, find_above (j + 1) i m r.1)

find-index_of :
    (lo i : ℕ) (name : List ℕ) (m : Entries)
    → Rising lo m
    → index_of name m ≡ some i
    → (find_entry i m ≡ some name) × (lo ≤ i)
unfolding find_entry index_of
find-index_of lo i name [] r e = cc
find-index_of lo i name ((j, x) ∷ m) r e =
    ground (arith, list_eq_iff x name, find-index_of (j + 1) i name m r.1)

-- In a valid table the two lookups invert one another on what is present: the index of an index's
-- name is that index, and the name of a present name's index is that name.
pub get_index-get_name :
    (n : NamedIndexes) (i : ℕ) (name : List ℕ)
    → IsValid n
    → (get_name_from_index n i ≢ [] → get_index_for_name n (get_name_from_index n i) ≡ i)
      × (index_of name n.named_indexes ≢ none
          → get_name_from_index n (get_index_for_name n name) ≡ name)
unfolding get_name_from_index get_index_for_name
get_index-get_name n i name v = (there, back)
  where
    there : get_name_from_index n i ≢ [] → get_index_for_name n (get_name_from_index n i) ≡ i
    there h = elim (Option-cases (find_entry i n.named_indexes)) [
      | inl e ↦ absurd (h (rw (e, get_name_from_index)))
      | inr (x, e) ↦
          rw (e, get_name_from_index)
            (rw (index_of-find i x n.named_indexes v.distinct e, get_index_for_name))
    ]

    back :
        index_of name n.named_indexes ≢ none
        → get_name_from_index n (get_index_for_name n name) ≡ name
    back h = elim (Option-cases (index_of name n.named_indexes)) [
      | inl e ↦ absurd (h e)
      | inr (k, e) ↦
          rw (e, get_index_for_name)
            (rw ((find-index_of 0 k name n.named_indexes v.rising e).0, get_name_from_index))
    ]
