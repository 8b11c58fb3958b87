-- ===== src/Modules/Imports.antt =====
-- What the attributes of an import come to.
use v8app.Base.{
  ℕ, zero, suc, ◌*◌, ◌%◌, ◌≤◌, ◌≡◌, refl, ◌∙◌, Bool, true, false, not, ◌||◌, ◌&&◌, Option, some,
  List, [], ◌∷◌, arith, list_eq, list_eq_iff, if◌then◌else◌, codes, length,
}
use v8app.Versions.{VersionString}
use v8app.Versions.Parse.{set_version_string, has_match, valid-set_version_string}
use v8app.Modules.{JsModuleType, JsModuleAttributesInfo}
use v8app.Modules.Attributes.{
  Scan, take_type, take_value, with_version, is_key, take_attribute, scan_attributes, entry_size,
  get_module_attributes_info,
}

pub record Entry : Type 0 where
  pub key : List ℕ
  pub value : List ℕ
  pub offset : List ℕ

-- How V8 lays the entries out: as pairs, or as triplets with the offset in the source.
pub as_array : Bool → List Entry → List (List ℕ)
as_array triplets [] = []
as_array true (e ∷ es) = e.key ∷ e.value ∷ e.offset ∷ as_array true es
as_array false (e ∷ es) = e.key ∷ e.value ∷ as_array false es

-- A type that is not known, or a version that is none.
unfoldable is_accepted : Entry → Bool
is_accepted e =
    if list_eq e.key (codes "type")
    then list_eq e.value (codes "json")
      || list_eq e.value (codes "js")
      || list_eq e.value (codes "native")
    else if list_eq e.key (codes "version")
    then has_match e.value
    else true

unfoldable pub all_accepted : List Entry → Bool
unfolding is_accepted
all_accepted [] = true
all_accepted (e ∷ es) = is_accepted e && all_accepted es

-- The value of the last entry with the key, or the given one.
unfoldable pub last_value : List ℕ → List ℕ → List Entry → List ℕ
last_value key old [] = old
last_value key old (e ∷ es) = last_value key (if list_eq e.key key then e.value else old) es

-- The type after an entry, from that before it.
unfoldable entry_type : Entry → JsModuleType → JsModuleType
entry_type e type =
    if list_eq e.key (codes "type")
    then (if list_eq e.value (codes "json")
        then JsModuleType.json
        else if list_eq e.value (codes "js")
        then JsModuleType.javascript
        else if list_eq e.value (codes "native")
        then JsModuleType.native
        else JsModuleType.invalid)
    else if list_eq e.key (codes "version") && not (has_match e.value)
    then JsModuleType.invalid
    else type

unfoldable pub last_type : JsModuleType → List Entry → JsModuleType
unfolding entry_type
last_type type [] = type
last_type type (e ∷ es) = last_type (entry_type e type) es

take_entry : Entry → Scan → Scan
take_entry e s = if is_key e.key then take_value e.key e.value s else s

take_entries : List Entry → Scan → Scan
unfolding take_entry
take_entries [] s = s
take_entries (e ∷ es) s = take_entries es (take_entry e s)

take_attribute_lem :
    (e : Entry) (behind : List (List ℕ)) (s : Scan)
    → take_attribute e.key (e.value ∷ behind) s ≡ some (take_entry e s)
unfolding take_attribute take_entry
take_attribute_lem e behind s = ground (arith, list_eq_iff e.key [])

scan-pairs :
    (rounds : ℕ) (es : List Entry) (s : Scan)
    → length (as_array false es) ≤ rounds
    → scan_attributes 2 rounds (as_array false es) s ≡ some (take_entries es s)
unfolding scan_attributes as_array take_entries
scan-pairs zero [] s h = refl
scan-pairs (suc rounds) [] s h = refl
scan-pairs zero (e ∷ es) s h = absurd (omega arith)
scan-pairs (suc rounds) (e ∷ es) s h =
    rw (take_attribute_lem e (as_array false es) s)
      (scan-pairs rounds es (take_entry e s) (omega arith))

scan-triplets :
    (rounds : ℕ) (es : List Entry) (s : Scan)
    → length (as_array true es) ≤ rounds
    → scan_attributes 3 rounds (as_array true es) s ≡ some (take_entries es s)
unfolding scan_attributes as_array take_entries
scan-triplets zero [] s h = refl
scan-triplets (suc rounds) [] s h = refl
scan-triplets zero (e ∷ es) s h = absurd (omega arith)
scan-triplets (suc rounds) (e ∷ es) s h =
    rw (take_attribute_lem e (e.offset ∷ as_array true es) s)
      (scan-triplets rounds es (take_entry e s) (omega arith))

with_version_lem :
    (v : Bool × VersionString) (s : Scan)
    → ((with_version v s).invalid_attribute ≡ (s.invalid_attribute || not v.1.valid))
      × ((with_version v s).info.module_name ≡ s.info.module_name)
      × ((with_version v s).info.type ≡ (if v.1.valid then s.info.type else JsModuleType.invalid))
with_version_lem v s = ground arith

take_entry_lem :
    (e : Entry) (s : Scan)
    → ((take_entry e s).invalid_attribute ≡ (s.invalid_attribute || not (is_accepted e)))
      × ((take_entry e s).info.module_name
          ≡ (if list_eq e.key (codes "module") then e.value else s.info.module_name))
      × ((take_entry e s).info.type ≡ entry_type e s.info.type)
unfolding take_entry take_value take_type is_accepted entry_type
take_entry_lem e s = ground (
  arith,
  list_eq_iff e.key (codes "type"),
  list_eq_iff e.key (codes "module"),
  list_eq_iff e.key (codes "version"),
  valid-set_version_string e.value s.info.version,
  with_version_lem (set_version_string e.value s.info.version) s,
)

take_entries_lem :
    (es : List Entry) (s : Scan)
    → ((take_entries es s).invalid_attribute ≡ (s.invalid_attribute || not (all_accepted es)))
      × ((take_entries es s).info.module_name ≡ last_value (codes "module") s.info.module_name es)
      × ((take_entries es s).info.type ≡ last_type s.info.type es)
unfolding take_entries all_accepted last_value last_type
take_entries_lem [] s = ground arith
take_entries_lem (e ∷ es) s =
    let (a, b, c) = take_entry_lem e s in
    let (i, j, k) = take_entries_lem es (take_entry e s) in
    (
      i ∙ rw a (by_cases s.invalid_attribute (is_accepted e) (all_accepted es)),
      j ∙ rw b refl,
      k ∙ rw c refl,
    )
  where
    by_cases : (x y z : Bool) → ((x || not y) || not z) ≡ (x || not (y && z))
    by_cases true y z = refl
    by_cases false true z = refl
    by_cases false false z = refl

length-pairs : (es : List Entry) → length (as_array false es) ≡ 2 * length es
unfolding as_array
length-pairs [] = refl
length-pairs (e ∷ es) = omega (arith, length-pairs es)

length-triplets : (es : List Entry) → length (as_array true es) ≡ 3 * length es
unfolding as_array
length-triplets [] = refl
length-triplets (e ∷ es) = omega (arith, length-triplets es)

start : JsModuleAttributesInfo → Scan
start info = record {
  info = record info { type = JsModuleType.javascript };
  invalid_attribute = false;
}

scan_all :
    (triplets : Bool) (es : List Entry) (s : Scan)
    → (triplets ≡ true → length es % 2 ≡ 1)
    → scan_attributes
        (entry_size (length (as_array triplets es)))
        (length (as_array triplets es))
        (as_array triplets es)
        s
      ≡ some (take_entries es s)
scan_all true es s h =
    rw entry_size_3 (scan-triplets (length (as_array true es)) es s (omega arith))
  where
    entry_size_3 : entry_size (length (as_array true es)) ≡ 3
    entry_size_3 = ground (arith, length-triplets es, h refl)
scan_all false es s h =
    rw (entry_size_2) (scan-pairs (length (as_array false es)) es s (omega arith))
  where
    entry_size_2 : entry_size (length (as_array false es)) ≡ 2
    entry_size_2 = ground (arith, length-pairs es)

-- The entries of an import, in pairs or in an odd number of triplets, are all read: the result says
-- whether each has a known type or a version, the module is that of the last entry that names one, and
-- the type is set by each entry in turn.
pub get_module_attributes_info-entries :
    (triplets : Bool) (es : List Entry) (info : JsModuleAttributesInfo)
    → (triplets ≡ true → length es % 2 ≡ 1)
    → (got : JsModuleAttributesInfo) × (get_module_attributes_info true (as_array triplets es) info
        ≡ some (all_accepted es, got))
      × (got.module_name ≡ last_value (codes "module") info.module_name es)
      × (got.type ≡ last_type JsModuleType.javascript es)
unfolding get_module_attributes_info start
get_module_attributes_info-entries triplets es info h =
    let (i, j, k) = take_entries_lem es (start info) in
    (
      (take_entries es (start info)).info,
      rw (scan_all triplets es (start info) h, i) (twice (all_accepted es)),
      j,
      k,
    )
  where
    twice :
        {A : Type 0} {a : A} (b : Bool)
        → Path (Option (Bool × A)) (some (not (not b), a)) (some (b, a))
    twice true = refl
    twice false = refl
