-- ===== src/Modules/Tests.antt =====
-- The attributes of an import, a module in a snapshot, and the theorems at concrete inputs.
use v8app.Base.{
  ℕ, zero, suc, ◌≡◌, refl, ap, length, get_elem?, Option, if◌then◌else◌, Bool, true, false, none,
  some, List, [], ◌∷◌, ◌++◌, arith, codes,
}
use v8app.Serialization.Bytes.{object_bytes}
use v8app.Serialization.Swap.{swap_bytes}
use v8app.Serialization.Buffer.{ReadBuffer, WriteBuffer, serialize_write}
use v8app.Serialization.Buffer.Reads.{HasInput}
use v8app.Serialization.Buffer.Writes.{ReadsBack}
use v8app.Serialization.Values.{write_string, write_fixed}
use v8app.Versions.{new_version, split}
use v8app.Versions.Parse.{
  set_version_string, regex_match, cut, core_matches, group_matches, take_matches,
}
use v8app.Versions.Wire.{write_version}
use v8app.Modules.{JsModuleType, JsModuleAttributesInfo, new_attributes_info, type_code}
use v8app.Modules.Attributes.{
  get_module_attributes_info, scan_attributes, take_attribute, take_value, take_type,
}
use v8app.Modules.Imports.{
  Entry, as_array, all_accepted, last_value, last_type, get_module_attributes_info-entries,
}
use v8app.Modules.Info.{
  JsModuleInfo, new_module_info, create_snapshot_data, restore_v8_module,
  restore_v8_module-create_snapshot_data, KeepsData,
}
use v8app.Modules.Wire.{
  SnapshotData, new_snapshot_data, make_snapshot, load_snapshot_data, write_modules,
  write_snapshot_data, write_attributes, write_module_type, write_index_if,
}
use v8app.Modules.Wire.RoundTrip.{IsSaved, IsParsed, map_restored, load_snapshot_data-make_snapshot}

abbrev entries : List Entry
entries =
    record { key = codes "type"; value = codes "json"; offset = codes "20" }
    ∷ record { key = codes "module"; value = codes "app"; offset = codes "35" }
    ∷ record { key = codes "lang"; value = codes "x"; offset = codes "50" }
    ∷ []

get_module_attributes_info-entries_example :
    (got : JsModuleAttributesInfo) × (get_module_attributes_info true
        (as_array true entries)
        new_attributes_info
      ≡ some (all_accepted entries, got))
    × (got.module_name ≡ last_value (codes "module") new_attributes_info.module_name entries)
    × (got.type ≡ last_type JsModuleType.javascript entries)
get_module_attributes_info-entries_example =
    get_module_attributes_info-entries true entries new_attributes_info (λ e. omega arith)

-- Of two entries in triplets the second is not seen: the module is lost.
two_triplets :
    get_module_attributes_info true
      (codes "type" ∷ codes "json" ∷ codes "20" ∷ codes "module" ∷ codes "app" ∷ codes "35" ∷ [])
      new_attributes_info
    ≡ some (true, record new_attributes_info { type = JsModuleType.json })
unfolding get_module_attributes_info scan_attributes take_attribute take_value take_type
    new_attributes_info
two_triplets = refl

-- A type behind a version that is none: the attributes are refused, and the type says nothing of it.
late_type :
    (b : Bool) × (got : JsModuleAttributesInfo) × (get_module_attributes_info true
        (codes "version" ∷ codes "x" ∷ codes "type" ∷ codes "json" ∷ [])
        new_attributes_info
      ≡ some (b, got))
    × (b ≡ false)
    × (got.type ≡ JsModuleType.json)
unfolding get_module_attributes_info scan_attributes take_attribute take_value take_type
    new_attributes_info new_version set_version_string regex_match cut core_matches group_matches
    take_matches split
late_type = (_, _, refl, refl, refl)

abbrev Handles : Type 0
Handles = JsModuleInfo ℕ ℕ ℕ

abbrev data_module : Handles
data_module = record new_module_info {
  type = JsModuleType.json;
  path = codes "/d.json";
  v8_module = some 4;
  json = some 9;
  unbound_script = some 2;
}

none_IsParsed : IsParsed new_version
unfolding IsParsed set_version_string regex_match cut core_matches group_matches take_matches split
    new_version
none_IsParsed = refl

-- A creator holds modules and values, which have their indexes in common; a `true` is a module.
abbrev Data : Type 0
Data = List (Bool × ℕ)

abbrev add : Bool → Data → ℕ → ℕ × Data
add is_module c n = (length c, c ++ ((is_module, n) ∷ []))

abbrev of_kind : Bool → Option (Bool × ℕ) → Option ℕ
of_kind is_module none = none
of_kind true (some (b, n)) = if b then some n else none
of_kind false (some (b, n)) = if b then none else some n

abbrev at : Bool → Data → ℕ → Option ℕ
at is_module c i = of_kind is_module (get_elem? c i)

get_elem?-add : (c : Data) (x : Bool × ℕ) → get_elem? (c ++ (x ∷ [])) (length c) ≡ some x
get_elem?-add [] x = refl
get_elem?-add (y ∷ c) x = get_elem?-add c x

at-stays :
    (is_module : Bool) (c : Data) (x : Bool × ℕ) (i n : ℕ)
    → at is_module c i ≡ some n
    → at is_module (c ++ (x ∷ [])) i ≡ some n
at-stays true [] x i n h = cc
at-stays false [] x i n h = cc
at-stays is_module (z ∷ c) x zero n h = h
at-stays is_module (z ∷ c) x (suc i) n h = at-stays is_module c x i n h

add-KeepsData : KeepsData (add true) (add false) (at true) (at false)
add-KeepsData = record {
  added_module = λ c m. ap (of_kind true) (get_elem?-add c (true, m));
  added_value = λ c v. ap (of_kind false) (get_elem?-add c (false, v));
  module_stays = λ c v i m h. at-stays true c (false, v) i m h;
}

-- What is in the creator before, what the module adds, and what comes behind it.
abbrev before : Data
before = (true, 7) ∷ []

abbrev held : Data
held = (true, 7) ∷ (true, 4) ∷ (false, 9) ∷ (true, 5) ∷ []

restore_v8_module-create_snapshot_data_example :
    restore_v8_module {Module = ℕ} {Value = ℕ} {Script = ℕ}
      (at true held)
      (at false held)
      (create_snapshot_data (add true) (add false) data_module before).0
      new_module_info
    ≡ some (record data_module { unbound_script = none })
unfolding create_snapshot_data
restore_v8_module-create_snapshot_data_example =
    restore_v8_module-create_snapshot_data (add true) (add false) (at true) (at false)
      (at true held) (at false held) data_module before add-KeepsData
      (λ i m h. at-stays true (before ++ ((true, 4) ∷ (false, 9) ∷ [])) (true, 5) i m h)
      (λ i v h. at-stays false (before ++ ((true, 4) ∷ (false, 9) ∷ [])) (true, 5) i v h)
      (unfold IsParsed in unfold new_module_info in none_IsParsed)

abbrev writer : WriteBuffer
writer = record {
  base = record {
    buffer = [];
    stream_state = record { reader = false; big_endian = false };
    error = false;
  };
}

abbrev saved : SnapshotData
saved = record new_snapshot_data { path = codes "/d"; save_module = true; module_data_index = 4 }

abbrev reader : ReadBuffer
reader = record {
  base = record {
    buffer = (make_snapshot true (saved ∷ []) writer).1.buffer ++ (7 ∷ []);
    stream_state = record { reader = false; big_endian = false };
    error = false;
  };
  read_pos = 0;
}

saved-IsSaved : IsSaved saved
unfolding new_snapshot_data new_attributes_info new_version
saved-IsSaved = record {
  known = λ e. cc;
  path_text = (omega arith, omega arith);
  name_text = (tt, omega arith);
  version_text = (tt, omega arith);
  module_index = omega arith;
  json_index = omega arith;
  attributes = record {
    known = λ e. cc;
    name_text = (tt, omega arith);
    version_text = (tt, omega arith);
    parsed = none_IsParsed;
  };
}

saved_back : ReadsBack reader writer (make_snapshot true (saved ∷ []) writer).1 (7 ∷ [])
unfolding make_snapshot write_modules write_snapshot_data write_attributes write_module_type
    write_index_if write_version write_string write_fixed swap_bytes object_bytes serialize_write
    new_snapshot_data new_attributes_info new_version type_code
saved_back = record { same_order = refl; content = refl; stands = refl; fits = omega arith }

load_snapshot_data-make_snapshot_example :
    ((make_snapshot true (saved ∷ []) writer).0 ≡ true)
    × ((r' : ReadBuffer) × (load_snapshot_data false (λ i. i) [] reader
          ≡ some (true, map_restored (saved ∷ []), r'))
        × HasInput r' (7 ∷ []))
load_snapshot_data-make_snapshot_example =
    load_snapshot_data-make_snapshot true false (λ i. i) (saved ∷ []) [] writer reader (7 ∷ [])
      (saved-IsSaved, tt) (omega arith) refl refl saved_back
