-- ===== src/Modules/Wire/RoundTrip.antt =====
-- The modules in a snapshot: what is written is read again, on any platform.
use v8app.Base.{
  ℕ, ◌+◌, ◌^◌, ◌<◌, ◌≡◌, ◌≢◌, refl, sym, ap, subst, ◌∙◌, Bool, true, false, not, Option, some, List,
  [], ◌∷◌, ◌++◌, length, append_assoc, append-nil, All, arith, if_false, leb, if◌then◌else◌,
}
use v8app.Serialization.Bytes.{object_bytes}
use v8app.Serialization.Buffer.{ReadBuffer, WriteBuffer, size_mod, set_read_error}
use v8app.Serialization.Buffer.Reads.{HasInput, HasInput-advance, advance}
use v8app.Serialization.Buffer.Writes.{appended, appended_twice, ReadsBack, ReadsBack-HasInput}
use v8app.Serialization.Values.{write_fixed, after_write}
use v8app.Serialization.Values.Fixed.{write_fixed_layout}
use v8app.Serialization.Values.Strings.{IsChar}
use v8app.Serialization.Values.RoundTrip.{wire_string}
use v8app.Serialization.Values.Sequence.{
  WritesAs, WritesAs-then, WritesAs-nothing, WritesAs-fixed, WritesAs-string, ReadsAs,
  ReadsAs-nothing, ReadsAs-then, ReadsAs-end, ReadsAs-fixed, ReadsAs-string, after_write_lem,
}
use v8app.Versions.{VersionString, new_version}
use v8app.Versions.Parse.{set_version_string}
use v8app.Versions.Wire.{write_version, read_version}
use v8app.Modules.{
  JsModuleType, JsModuleAttributesInfo, new_attributes_info, type_code, type_of_code,
}
use v8app.Modules.Wire.{
  shift_in, write_module_type, read_module_type, write_attributes, read_attributes, SnapshotData,
  new_snapshot_data, flag_byte, read_flag, write_index_if, read_index_if, write_snapshot_data,
  read_snapshot_data, write_modules, make_snapshot, read_modules, load_snapshot_data,
}

wire_type : JsModuleType → Bool → List ℕ
wire_type type e = object_bytes e 8 (type_code type)

WritesAs-type :
    (native : Bool) (type : JsModuleType)
    → WritesAs (λ b. after_write (write_module_type native type b)) (wire_type type)
unfolding write_module_type wire_type
WritesAs-type native type = record {
  appends = λ b.
      after_write_lem (write_fixed native 8 b (type_code type))
      ∙ WritesAs.appends (WritesAs-fixed native 8 (type_code type)) b;
}

ReadsAs-shift_in {ℓ} :
    {A : Type ℓ} {f : ReadBuffer → Option (Bool × A × ReadBuffer)} {w : Bool → List ℕ} {a : A}
    → ReadsAs f w (λ r. (true, a, r))
    → ReadsAs (λ r. shift_in (f r)) w (λ r. (a, r))
ReadsAs-shift_in p = record { delivers = λ r rest ok h. rw (p.delivers r rest ok h) refl }

ReadsAs-type :
    (native : Bool) (junk : ℕ) (old type : JsModuleType)
    → type ≢ JsModuleType.max_mod_type
    → ReadsAs (read_module_type native junk old) (wire_type type) (λ r. (true, type, r))
unfolding read_module_type wire_type type_code
ReadsAs-type native junk old type ok =
    ReadsAs-end _ (ReadsAs-fixed native 8 junk (type_code type) (small type)) (checked type ok)
  where
    checked :
        (type : JsModuleType)
        → type ≢ JsModuleType.max_mod_type
        → (r : ReadBuffer) → r.error ≡ false
        → Path
            (Option (Bool × JsModuleType × ReadBuffer))
            (some (
              if leb 5 (type_code type)
              then (false, old, set_read_error r)
              else (not r.error, type_of_code (type_code type), r)))
            (some (true, type, r))
    checked JsModuleType.invalid h r ok = rw ok refl
    checked JsModuleType.javascript h r ok = rw ok refl
    checked JsModuleType.json h r ok = rw ok refl
    checked JsModuleType.native h r ok = rw ok refl
    checked JsModuleType.no_attribute h r ok = rw ok refl
    checked JsModuleType.max_mod_type h r ok = absurd (h refl)

    small : (type : JsModuleType) → type_code type < 256 ^ 8
    small type = ground arith

abbrev pub IsText : List ℕ → Type 0
IsText s = All (IsChar 1) s × (length s + 1 < size_mod)

-- What a text read into a fresh object gives.
unfoldable pub IsParsed : VersionString → Type 0
IsParsed v = (set_version_string v.version new_version).1 ≡ v

WritesAs-version :
    (native : Bool) (v : VersionString)
    → IsText v.version
    → WritesAs (λ b. after_write (write_version native b v)) (λ e. wire_string e 1 v.version)
unfolding write_version
WritesAs-version native v text = WritesAs-string native v.version text.0 text.1

ReadsAs-version :
    (native : Bool) (junk : ℕ) (v : VersionString)
    → IsText v.version
    → IsParsed v
    → ReadsAs
        (λ r. read_version native junk r new_version)
        (λ e. wire_string e 1 v.version)
        (λ r. (true, v, r))
unfolding read_version IsParsed
ReadsAs-version native junk v text parsed =
    ReadsAs-end _ (ReadsAs-string native junk v.version text.0 text.1)
      (λ r ok. rw (ok, parsed) refl)

pub record IsStorable (info : JsModuleAttributesInfo) : Type 0 where
  pub known : info.type ≢ JsModuleType.max_mod_type
  pub name_text : IsText info.module_name
  pub version_text : IsText info.version.version
  pub parsed : IsParsed info.version

wire_attributes : JsModuleAttributesInfo → Bool → List ℕ
wire_attributes info e =
    wire_type info.type e
    ++ (wire_string e 1 info.module_name ++ wire_string e 1 info.version.version)

WritesAs-attributes :
    (native : Bool) (info : JsModuleAttributesInfo)
    → IsStorable info
    → WritesAs (λ b. after_write (write_attributes native info b)) (wire_attributes info)
unfolding write_attributes wire_attributes
WritesAs-attributes native info h = record {
  appends = λ b.
      after_write_lem _
      ∙ WritesAs.appends
          (WritesAs-then (WritesAs-type native info.type) (
            WritesAs-then (WritesAs-string native info.module_name h.name_text.0 h.name_text.1)
              (WritesAs-version native info.version h.version_text)))
          b;
}

ReadsAs-attributes :
    (native : Bool) (junk : ℕ → ℕ) (info : JsModuleAttributesInfo)
    → IsStorable info
    → ReadsAs
        (read_attributes native junk new_attributes_info)
        (wire_attributes info)
        (λ r. (true, info, r))
unfolding read_attributes wire_attributes new_attributes_info
ReadsAs-attributes native junk info h =
    ReadsAs-then _
      (ReadsAs-shift_in (ReadsAs-type native (junk 0) JsModuleType.no_attribute info.type h.known))
      (ReadsAs-then _ (ReadsAs-string native (junk 1) info.module_name h.name_text.0 h.name_text.1)
        (ReadsAs-end _
          (ReadsAs-shift_in (ReadsAs-version native (junk 2) info.version h.version_text h.parsed))
          (λ r ok. rw ok refl)))

pub record IsSaved (d : SnapshotData) : Type 0 where
  pub known : d.type ≢ JsModuleType.max_mod_type
  pub path_text : IsText d.path
  pub name_text : IsText d.module_name
  pub version_text : IsText d.version
  pub module_index : d.module_data_index < 256 ^ 8
  pub json_index : d.json_module_data_index < 256 ^ 8
  pub attributes : IsStorable d.attribute_info

-- An index that was not saved is 0.
unfoldable pub restored : SnapshotData → SnapshotData
restored d = record d {
  module_data_index = if d.save_module then d.module_data_index else 0;
  json_module_data_index = if d.saved_json then d.json_module_data_index else 0;
}

wire_flag : Bool → Bool → List ℕ
wire_flag flag e = object_bytes e 1 (flag_byte flag)

wire_index_if : Bool → ℕ → Bool → List ℕ
wire_index_if saved index e = if saved then object_bytes e 8 index else []

ReadsAs-flag :
    (native old flag : Bool) → ReadsAs (read_flag native old) (wire_flag flag) (λ r. (flag, r))
unfolding read_flag wire_flag
ReadsAs-flag native old true =
    ReadsAs-end _ (ReadsAs-fixed native 1 (flag_byte old) 1 (omega arith)) (λ r ok. refl)
ReadsAs-flag native old false =
    ReadsAs-end _ (ReadsAs-fixed native 1 (flag_byte old) 0 (omega arith)) (λ r ok. refl)

WritesAs-index_if :
    (native saved : Bool) (index : ℕ)
    → WritesAs (write_index_if native saved index) (wire_index_if saved index)
unfolding write_index_if wire_index_if
WritesAs-index_if native true index = WritesAs-fixed native 8 index
WritesAs-index_if native false index = WritesAs-nothing

ReadsAs-index_if :
    (native saved : Bool) (index : ℕ)
    → index < 256 ^ 8
    → ReadsAs
        (read_index_if native saved 0)
        (wire_index_if saved index)
        (λ r. ((if saved then index else 0), r))
unfolding read_index_if wire_index_if
ReadsAs-index_if native true index lt = ReadsAs-fixed native 8 0 index lt
ReadsAs-index_if native false index lt = ReadsAs-nothing (λ r. (0, r))

wire_snapshot_data : SnapshotData → Bool → List ℕ
wire_snapshot_data d e =
    wire_type d.type e
    ++ (wire_string e 1 d.path
        ++ (wire_string e 1 d.module_name
            ++ (wire_string e 1 d.version
                ++ (wire_flag d.save_module e
                    ++ (wire_index_if d.save_module d.module_data_index e
                        ++ (wire_flag d.saved_json e
                            ++ (wire_index_if d.saved_json d.json_module_data_index e
                                ++ wire_attributes d.attribute_info e)))))))

WritesAs-snapshot_data :
    (native : Bool) (d : SnapshotData)
    → IsSaved d
    → WritesAs (λ b. after_write (write_snapshot_data native d b)) (wire_snapshot_data d)
unfolding write_snapshot_data wire_snapshot_data wire_flag
WritesAs-snapshot_data native d h = record {
  appends = λ b.
      after_write_lem _
      ∙ WritesAs.appends
          (WritesAs-then (WritesAs-type native d.type) (
            WritesAs-then (WritesAs-string native d.path h.path_text.0 h.path_text.1) (
              WritesAs-then (WritesAs-string native d.module_name h.name_text.0 h.name_text.1) (
                WritesAs-then (WritesAs-string native d.version h.version_text.0 h.version_text.1) (
                  WritesAs-then (WritesAs-fixed native 1 (flag_byte d.save_module)) (
                    WritesAs-then (WritesAs-index_if native d.save_module d.module_data_index) (
                      WritesAs-then (WritesAs-fixed native 1 (flag_byte d.saved_json)) (
                        WritesAs-then
                          (WritesAs-index_if native d.saved_json d.json_module_data_index)
                          (WritesAs-attributes native d.attribute_info h.attributes)))))))))
          b;
}

ReadsAs-snapshot_data :
    (native : Bool) (junk : ℕ → ℕ) (d : SnapshotData)
    → IsSaved d
    → ReadsAs
        (read_snapshot_data native junk new_snapshot_data)
        (wire_snapshot_data d)
        (λ r. (true, restored d, r))
unfolding read_snapshot_data wire_snapshot_data new_snapshot_data restored
ReadsAs-snapshot_data native junk d h =
    ReadsAs-then _
      (ReadsAs-shift_in (ReadsAs-type native (junk 0) JsModuleType.invalid d.type h.known))
      (ReadsAs-then _ (ReadsAs-string native (junk 1) d.path h.path_text.0 h.path_text.1) (
        ReadsAs-then _ (ReadsAs-string native (junk 2) d.module_name h.name_text.0 h.name_text.1) (
          ReadsAs-then _
            (ReadsAs-string native (junk 3) d.version h.version_text.0 h.version_text.1)
            (ReadsAs-then _ (ReadsAs-flag native false d.save_module) (
              ReadsAs-then _
                (ReadsAs-index_if native d.save_module d.module_data_index h.module_index)
                (ReadsAs-then _ (ReadsAs-flag native false d.saved_json) (
                  ReadsAs-then _
                    (ReadsAs-index_if native d.saved_json d.json_module_data_index h.json_index)
                    (ReadsAs-end _
                      (ReadsAs-shift_in (
                        ReadsAs-attributes native (λ i. junk (i + 4)) d.attribute_info
                          h.attributes))
                      (λ r ok. rw ok refl)))))))))

wire_modules : List SnapshotData → Bool → List ℕ
unfolding wire_snapshot_data
wire_modules [] e = []
wire_modules (d ∷ ds) e = wire_snapshot_data d e ++ wire_modules ds e

-- The writer's error is off, and stays so.
write_modules_layout :
    (native : Bool) (ds : List SnapshotData) (b : WriteBuffer)
    → All IsSaved ds
    → b.error ≡ false
    → write_modules native ds b ≡ (true, appended b (wire_modules ds b.stream_state.big_endian))
unfolding write_modules wire_modules appended
write_modules_layout native [] b all ok = ap (λ x. (true, x)) (WritesAs.appends WritesAs-nothing b)
write_modules_layout native (d ∷ ds) b all ok =
    rw (WritesAs.appends (WritesAs-snapshot_data native d all.0) b) (
      if_false b.error _ _ ok
      ∙ write_modules_layout native ds (appended b (wire_snapshot_data d b.stream_state.big_endian))
          all.1 ok
      ∙ ap (λ x. (true, x))
          (appended_twice b (wire_snapshot_data d b.stream_state.big_endian)
            (wire_modules ds b.stream_state.big_endian)))

unfoldable pub map_restored : List SnapshotData → List SnapshotData
unfolding restored
map_restored [] = []
map_restored (d ∷ ds) = restored d ∷ map_restored ds

ReadsAs-unless_error {ℓ} :
    {C : Type ℓ} {f g : ReadBuffer → Option C} {w : Bool → List ℕ} {result : ReadBuffer → C}
    → ReadsAs g w result
    → ReadsAs (λ r. elim (r.error) [ true ↦ f r | false ↦ g r ]) w result
ReadsAs-unless_error {f} {g} {w} {result} p = record {
  delivers = λ r rest ok h.
      subst
        (λ e.
          elim e [ true ↦ f r | false ↦ g r ]
          ≡ some (result (advance r (length (w r.stream_state.big_endian)))))
        (sym ok) (p.delivers r rest ok h);
}

ReadsAs-modules :
    (native : Bool) (junk : ℕ → ℕ) (ds before : List SnapshotData)
    → All IsSaved ds
    → ReadsAs
        (read_modules native junk (length ds) before)
        (wire_modules ds)
        (λ r. (true, before ++ map_restored ds, r))
unfolding read_modules wire_modules map_restored
ReadsAs-modules native junk [] before all =
    rw (append-nil before) (ReadsAs-nothing (λ r. (true, before, r)))
ReadsAs-modules native junk (d ∷ ds) before all =
    subst
      (λ ms.
        ReadsAs (read_modules native junk (length (d ∷ ds)) before) (wire_modules (d ∷ ds))
          (λ r. (true, ms, r)))
      (append_assoc before (restored d ∷ []) (map_restored ds))
      (ReadsAs-then _ (ReadsAs-shift_in (ReadsAs-snapshot_data native junk d all.0)) (
        ReadsAs-unless_error
          (ReadsAs-modules native (λ i. junk (i + 7)) ds (before ++ (restored d ∷ [])) all.1)))

wire_all : List SnapshotData → Bool → List ℕ
unfolding wire_modules
wire_all ds e = object_bytes e 8 (length ds) ++ wire_modules ds e

-- The modules that one platform writes into a snapshot another reads: the same modules in the same
-- order, behind those that were there, but that an index that was not saved is 0. The writer and the
-- reader have no error, and each of the modules has texts, indexes and a type that can be stored and
-- carries a version that is what its text parses to.
pub load_snapshot_data-make_snapshot :
    (native native' : Bool) (junk : ℕ → ℕ) (ds before : List SnapshotData) (b : WriteBuffer)
    (r : ReadBuffer) (rest : List ℕ)
    → All IsSaved ds
    → length ds < 256 ^ 8
    → b.error ≡ false
    → r.error ≡ false
    → ReadsBack r b (make_snapshot native ds b).1 rest
    → ((make_snapshot native ds b).0 ≡ true)
      × ((r' : ReadBuffer) × (load_snapshot_data native' junk before r
            ≡ some (true, before ++ map_restored ds, r'))
          × HasInput r' rest)
unfolding make_snapshot load_snapshot_data wire_all
load_snapshot_data-make_snapshot native native' junk ds before b r rest all fits fine ok h = (
  ap (λ x. x.0) written,
  (
    _,
    ReadsAs.delivers reads r rest ok front,
    HasInput-advance (wire_all ds r.stream_state.big_endian) rest front,
  ),
)
  where
    written : make_snapshot native ds b ≡ (true, appended b (wire_all ds b.stream_state.big_endian))
    written = rw (write_fixed_layout native 8 b (length ds)) (
        unfold appended in
        (write_modules_layout native ds
            (appended b (object_bytes b.stream_state.big_endian 8 (length ds))) all fine
          ∙ ap (λ x. (true, x)) (appended_twice b _ _)))

    reads :
        ReadsAs
          (load_snapshot_data native' junk before)
          (wire_all ds)
          (λ r. (true, before ++ map_restored ds, r))
    reads =
        ReadsAs-then _ (ReadsAs-fixed native' 8 (junk 0) (length ds) fits)
          (ReadsAs-unless_error (ReadsAs-modules native' (λ i. junk (i + 1)) ds before all))

    front : HasInput r (wire_all ds r.stream_state.big_endian ++ rest)
    front =
        subst (λ o. HasInput r (wire_all ds o ++ rest)) (sym h.same_order)
          (ReadsBack-HasInput r b (wire_all ds b.stream_state.big_endian) rest (rw (written) at h))
