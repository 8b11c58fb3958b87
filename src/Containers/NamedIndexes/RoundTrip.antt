-- ===== src/Containers/NamedIndexes/RoundTrip.antt =====
-- A table that was serialized is read back, if its indexes fit an `int`.
use v8app.Base.{
  ℕ, suc, ◌+◌, ◌^◌, ◌≤◌, ◌<◌, ◌≡◌, refl, sym, subst, ap, ◌∙◌, Bool, true, false, some, List, [],
  ◌∷◌, ◌++◌, arith, if_false, length, length-append, append-nil, append_assoc, All,
}
use v8app.Serialization.Bytes.{object_bytes, length-object_bytes}
use v8app.Serialization.Buffer.{ReadBuffer, WriteBuffer, size_mod, at_end}
use v8app.Serialization.Buffer.Reads.{HasInput, HasInput-advance, advance}
use v8app.Serialization.Buffer.Writes.{ReadsBack, ReadsBack-HasInput}
use v8app.Serialization.Values.Fixed.{read_fixed-HasInput, HasInput-advance_fixed}
use v8app.Serialization.Values.Strings.{advance_twice}
use v8app.Serialization.Values.RoundTrip.{wire_string, read_string-HasInput}
use v8app.Containers.NamedIndexes.{
  NamedIndexes, Entries, insert_entry, int_key, read_entries, serialize_name_indexes,
  deserialize_name_indexes, new_named_indexes,
}
use v8app.Containers.NamedIndexes.Laws.{Rising, IsValid}
use v8app.Containers.NamedIndexes.Wire.{
  wire_entry, wire_entries, wire_table, NameFits, serialize_layout,
}

-- All indexes stand below `hi`.
abbrev Under : ℕ → Entries → Type 0
Under hi m = All (λ (e : ℕ × List ℕ). e.0 < hi) m

Under-append :
    (hi i : ℕ) (name : List ℕ) (m : Entries)
    → Under hi m
    → hi ≤ i
    → Under (i + 1) (m ++ ((i, name) ∷ []))
Under-append hi i name [] u h = omega arith
Under-append hi i name (e ∷ m) u h = (omega arith, Under-append hi i name m u.1 h)

-- An index above all others goes to the end.
insert_entry_end :
    (hi i : ℕ) (name : List ℕ) (m : Entries)
    → Under hi m
    → hi ≤ i
    → insert_entry i name m ≡ some (m ++ ((i, name) ∷ []))
unfolding insert_entry
insert_entry_end hi i name [] u h = refl
insert_entry_end hi i name ((j, x) ∷ m) u h = ground (arith, insert_entry_end hi i name m)

-- An entry that the round trip keeps.
pub record EntryFits (e : ℕ × List ℕ) : Type 0 where
  pub int_index : e.0 < 2 ^ 31
  pub name_fits : NameFits e.1

length-wire_entry :
    (big : Bool) (i : ℕ) (name : List ℕ)
    → length (wire_entry big i name) ≡ 8 + length (wire_string big 1 name)
unfolding wire_entry
length-wire_entry big i name = omega (
  arith,
  length-append (object_bytes big 8 i) (wire_string big 1 name),
  length-object_bytes big 8 i,
)

-- One round of the loop, on an entry whose index is above all that are there.
read_entries_round :
    (native : Bool) (junk : ℕ → ℕ) (k i hi : ℕ) (name : List ℕ) (r : ReadBuffer) (n : NamedIndexes)
    (rest : List ℕ)
    → EntryFits (i, name)
    → r.error ≡ false
    → Under hi n.named_indexes
    → hi ≤ i
    → HasInput r (wire_entry r.stream_state.big_endian i name ++ rest)
    → read_entries native junk (suc k) r n
      ≡ read_entries native junk k
          (advance r (length (wire_entry r.stream_state.big_endian i name)))
          (record n { named_indexes = n.named_indexes ++ ((i, name) ∷ []) })
unfolding read_entries wire_entry advance
read_entries_round native junk k i hi name r n rest fits ok u h input = rw (
  read_fixed-HasInput native 8 r (junk k) i _ (omega (arith, fits.int_index)) front,
  read_string-HasInput native (junk k) (advance r 8) [] name rest fits.name_fits.chars
      fits.name_fits.counted (HasInput-advance_fixed r.stream_state.big_endian 8 i _ front),
  if_false r.error _ _ ok,
  same_key,
  insert_entry_end hi i name n.named_indexes u h,
  advance_twice r 8 (length (wire_string r.stream_state.big_endian 1 name)),
  length-wire_entry r.stream_state.big_endian i name,
)
  where
    front : HasInput r (
        object_bytes r.stream_state.big_endian 8 i
        ++ (wire_string r.stream_state.big_endian 1 name ++ rest))
    front =
        subst (HasInput r) (append_assoc (object_bytes r.stream_state.big_endian 8 i) _ rest) input

    same_key : int_key i ≡ i
    same_key = ground (arith, fits.int_index)

read_entries-HasInput :
    (native : Bool) (junk : ℕ → ℕ) (m : Entries) (r : ReadBuffer) (n : NamedIndexes) (hi : ℕ)
    (rest : List ℕ)
    → All EntryFits m
    → r.error ≡ false
    → Under hi n.named_indexes
    → Rising hi m
    → HasInput r (wire_entries r.stream_state.big_endian m ++ rest)
    → read_entries native junk (length m) r n
      ≡ some (
        true,
        record n { named_indexes = n.named_indexes ++ m },
        advance r (length (wire_entries r.stream_state.big_endian m)),
      )
unfolding read_entries wire_entries advance
read_entries-HasInput native junk [] r n hi rest fits ok u rising input =
    let e : r.read_pos ≡ r.read_pos + 0 = omega arith in
    rw (append-nil n.named_indexes) (ap (λ p. some (true, n, record r { read_pos = p })) e)
read_entries-HasInput native junk ((i, name) ∷ m) r n hi rest fits ok u rising input =
    read_entries_round native junk (length m) i hi name r n _ fits.0 ok u rising.0 front
    ∙ read_entries-HasInput native junk m
        (advance r (length (wire_entry r.stream_state.big_endian i name)))
        (record n { named_indexes = n.named_indexes ++ ((i, name) ∷ []) }) (i + 1) rest fits.1 ok
        (Under-append hi i name n.named_indexes u rising.0) rising.1
        (HasInput-advance (wire_entry r.stream_state.big_endian i name) _ front)
    ∙ rw (
      append_assoc n.named_indexes ((i, name) ∷ []) m,
      advance_twice r (length (wire_entry r.stream_state.big_endian i name))
          (length (wire_entries r.stream_state.big_endian m)),
      length-append (wire_entry r.stream_state.big_endian i name)
          (wire_entries r.stream_state.big_endian m),
    )
  where
    front : HasInput r (
        wire_entry r.stream_state.big_endian i name
        ++ (wire_entries r.stream_state.big_endian m ++ rest))
    front =
        subst (HasInput r) (append_assoc (wire_entry r.stream_state.big_endian i name) _ rest) input

-- A table that the round trip keeps: valid, with every number and name in its range.
pub record TableFits (n : NamedIndexes) : Type 0 where
  pub valid : IsValid n
  pub entries : All EntryFits n.named_indexes
  pub max_fits : n.max_named_indexes < size_mod
  pub counted : length n.named_indexes < size_mod

deserialize-HasInput :
    (native : Bool) (junk : ℕ → ℕ) (n : NamedIndexes) (old : ℕ) (r : ReadBuffer) (rest : List ℕ)
    → TableFits n
    → r.error ≡ false
    → HasInput r (wire_table r.stream_state.big_endian n ++ rest)
    → (r' : ReadBuffer) × (deserialize_name_indexes native junk (new_named_indexes old) r
        ≡ some (true, n, r'))
      × HasInput r' rest
unfolding deserialize_name_indexes new_named_indexes wire_table advance
deserialize-HasInput native junk n old r rest fits ok input = (
  advance (advance (advance r 8) 8) (length (wire_entries big n.named_indexes)),
  rw (
    if_false (at_end r) _ _ more,
    read_fixed-HasInput native 8 r old n.max_named_indexes _ fits.max_fits front,
    read_fixed-HasInput native 8 (advance r 8) (junk 0) (length n.named_indexes) _ fits.counted
        next,
    read_entries-HasInput native junk n.named_indexes (advance (advance r 8) 8)
        (record { max_named_indexes = n.max_named_indexes; named_indexes = [] }) 0 rest fits.entries
        ok tt fits.valid.rising last,
  ),
  HasInput-advance (wire_entries big n.named_indexes) rest last,
)
  where
    big : Bool
    big = r.stream_state.big_endian

    tail : List ℕ
    tail = wire_entries big n.named_indexes ++ rest

    front : HasInput r (
        object_bytes big 8 n.max_named_indexes
        ++ (object_bytes big 8 (length n.named_indexes) ++ tail))
    front =
        subst (HasInput r)
          (append_assoc (object_bytes big 8 n.max_named_indexes) _ rest
            ∙ ap (◌++◌ (object_bytes big 8 n.max_named_indexes))
                (append_assoc (object_bytes big 8 (length n.named_indexes)) _ rest))
          input

    next : HasInput (advance r 8) (object_bytes big 8 (length n.named_indexes) ++ tail)
    next = HasInput-advance_fixed big 8 n.max_named_indexes _ front

    last : HasInput (advance (advance r 8) 8) tail
    last = HasInput-advance_fixed big 8 (length n.named_indexes) _ next

    more : at_end r ≡ false
    more =
        unfold at_end in
        ground (
          arith,
          front.in_bounds,
          length-append (object_bytes big 8 n.max_named_indexes)
              (object_bytes big 8 (length n.named_indexes) ++ tail),
          length-object_bytes big 8 n.max_named_indexes,
        )

-- A valid table that `SerializeNameIndexes` wrote is what `DeserializeNameIndexes` reads into a fresh
-- table, whatever the endianness of the platforms and of the stream and whatever the locals start
-- with, if the indexes are below 2^31 and the names, their lengths and the counts fit; the reader then
-- stands in front of what follows.
pub deserialize-serialize :
    (native native' : Bool) (junk : ℕ → ℕ) (n : NamedIndexes) (old : ℕ) (b : WriteBuffer)
    (r : ReadBuffer) (rest : List ℕ)
    → TableFits n
    → r.error ≡ false
    → ReadsBack r b (serialize_name_indexes native n b).1 rest
    → (r' : ReadBuffer) × (deserialize_name_indexes native' junk (new_named_indexes old) r
        ≡ some (true, n, r'))
      × HasInput r' rest
deserialize-serialize native native' junk n old b r rest fits ok h =
    deserialize-HasInput native' junk n old r rest fits ok (
      subst (λ e. HasInput r (wire_table e n ++ rest)) (sym h.same_order)
        (ReadsBack-HasInput r b (wire_table b.stream_state.big_endian n) rest
          (rw (serialize_layout native n b (names n.named_indexes fits.entries)) at h)))
  where
    names : (m : Entries) → All EntryFits m → All (λ e. NameFits e.1) m
    names [] h = tt
    names (e ∷ m) h = (h.0.name_fits, names m h.1)
