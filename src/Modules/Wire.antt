-- ===== src/Modules/Wire.antt =====
-- The serializers of JSModuleType, JSModuleAttributesInfo and JSModuleInfo::SnapshotData
-- (JSModuleInfo.cc, JSModuleAttributesInfo.cc), and the modules of a context in a snapshot
-- (JSContextModules.cc). `junk` gives what the locals hold that the source leaves uninitialised.
pub mod RoundTrip
use v8app.Base.{
  ℕ, zero, suc, ◌+◌, ◌≡◌, Bool, true, false, not, Option, none, some, List, [], ◌∷◌, ◌++◌, leb,
  if◌then◌else◌, ◌>>=◌, length,
}
use v8app.Serialization.Buffer.{ReadBuffer, WriteBuffer, set_read_error}
use v8app.Serialization.Values.{
  write_fixed, read_fixed, write_string, read_string, after_write, after_read,
}
use v8app.Versions.Wire.{write_version, read_version}
use v8app.Modules.{
  JsModuleType, JsModuleAttributesInfo, new_attributes_info, type_code, type_of_code,
}

-- A serializer's result as `operator>>` leaves it.
abbrev pub shift_out {ℓ} : {A : Type ℓ} → Bool × A × ReadBuffer → A × ReadBuffer
shift_out (ok, a, r) = (a, after_read (ok, r))

abbrev pub shift_in {ℓ} : {A : Type ℓ} → Option (Bool × A × ReadBuffer) → Option (A × ReadBuffer)
shift_in read = read >>= λ got. some (shift_out got)

unfoldable pub write_module_type : Bool → JsModuleType → WriteBuffer → Bool × WriteBuffer
unfolding type_code
write_module_type native type b =
    let b' = write_fixed native 8 b (type_code type) in (not b'.error, b')

unfoldable pub read_module_type :
    Bool → ℕ → JsModuleType → ReadBuffer → Option (Bool × JsModuleType × ReadBuffer)
unfolding type_of_code
read_module_type native junk old r = do
  (n, r') ← read_fixed native 8 r junk
  some (if leb 5 n then (false, old, set_read_error r') else (not r'.error, type_of_code n, r'))

unfoldable pub write_attributes : Bool → JsModuleAttributesInfo → WriteBuffer → Bool × WriteBuffer
unfolding write_module_type
write_attributes native info b =
    let b1 = after_write (write_module_type native (info.type) b) in
    let b2 = write_string native b1 (info.module_name) in
    let b3 = after_write (write_version native b2 (info.version)) in (not b3.error, b3)

unfoldable pub read_attributes :
    Bool
    → (ℕ → ℕ)
    → JsModuleAttributesInfo
    → ReadBuffer
    → Option (Bool × JsModuleAttributesInfo × ReadBuffer)
unfolding read_module_type
read_attributes native junk old r = do
  (type, r1) ← shift_in (read_module_type native (junk 0) (old.type) r)
  (name, r2) ← read_string native (junk 1) r1 (old.module_name)
  (version, r3) ← shift_in (read_version native (junk 2) r2 (old.version))
  some (not r3.error, record { type = type; version = version; module_name = name }, r3)

pub record SnapshotData : Type 0 where
  pub type : JsModuleType
  pub path : List ℕ
  pub module_name : List ℕ
  pub version : List ℕ
  pub save_module : Bool
  pub saved_json : Bool
  pub module_data_index : ℕ
  pub json_module_data_index : ℕ
  pub attribute_info : JsModuleAttributesInfo

unfoldable pub new_snapshot_data : SnapshotData
unfolding new_attributes_info
new_snapshot_data = record {
  type = JsModuleType.invalid;
  path = [];
  module_name = [];
  version = [];
  save_module = false;
  saved_json = false;
  module_data_index = 0;
  json_module_data_index = 0;
  attribute_info = new_attributes_info;
}

abbrev pub flag_byte : Bool → ℕ
flag_byte flag = if flag then 1 else 0

-- A byte that is neither 0 nor 1 is no `bool`.
abbrev byte_flag : ℕ → Option Bool
byte_flag zero = some false
byte_flag (suc zero) = some true
byte_flag (suc (suc n)) = none

unfoldable pub read_flag : Bool → Bool → ReadBuffer → Option (Bool × ReadBuffer)
read_flag native old r = do
  (n, r') ← read_fixed native 1 r (flag_byte old)
  flag ← byte_flag n
  some (flag, r')

-- An index stands in the stream only behind a flag that is set.
unfoldable pub write_index_if : Bool → Bool → ℕ → WriteBuffer → WriteBuffer
write_index_if native saved index b = if saved then write_fixed native 8 b index else b

unfoldable pub read_index_if : Bool → Bool → ℕ → ReadBuffer → Option (ℕ × ReadBuffer)
read_index_if native saved old r = if saved then read_fixed native 8 r old else some (old, r)

unfoldable pub write_snapshot_data : Bool → SnapshotData → WriteBuffer → Bool × WriteBuffer
unfolding write_module_type write_attributes write_index_if
write_snapshot_data native d b =
    let b1 = after_write (write_module_type native (d.type) b) in
    let b2 = write_string native b1 (d.path) in
    let b3 = write_string native b2 (d.module_name) in
    let b4 = write_string native b3 (d.version) in
    let b5 = write_fixed native 1 b4 (flag_byte (d.save_module)) in
    let b6 = write_index_if native (d.save_module) (d.module_data_index) b5 in
    let b7 = write_fixed native 1 b6 (flag_byte (d.saved_json)) in
    let b8 = write_index_if native (d.saved_json) (d.json_module_data_index) b7 in
    let b9 = after_write (write_attributes native (d.attribute_info) b8) in (not b9.error, b9)

unfoldable pub read_snapshot_data :
    Bool → (ℕ → ℕ) → SnapshotData → ReadBuffer → Option (Bool × SnapshotData × ReadBuffer)
unfolding read_module_type read_attributes read_flag read_index_if
read_snapshot_data native junk old r = do
  (type, r1) ← shift_in (read_module_type native (junk 0) (old.type) r)
  (path, r2) ← read_string native (junk 1) r1 (old.path)
  (name, r3) ← read_string native (junk 2) r2 (old.module_name)
  (version, r4) ← read_string native (junk 3) r3 (old.version)
  (save_module, r5) ← read_flag native (old.save_module) r4
  (module_index, r6) ← read_index_if native save_module (old.module_data_index) r5
  (saved_json, r7) ← read_flag native (old.saved_json) r6
  (json_index, r8) ← read_index_if native saved_json (old.json_module_data_index) r7
  (info, r9) ← shift_in (read_attributes native (λ i. junk (i + 4)) (old.attribute_info) r8)
  some (
    not r9.error,
    record {
      type = type;
      path = path;
      module_name = name;
      version = version;
      save_module = save_module;
      saved_json = saved_json;
      module_data_index = module_index;
      json_module_data_index = json_index;
      attribute_info = info;
    },
    r9,
  )

-- The loop of `MakeSnapshot`, over what `CreateSnapshotData` gives for the modules; it stops where the
-- stream has an error.
unfoldable pub write_modules : Bool → List SnapshotData → WriteBuffer → Bool × WriteBuffer
unfolding write_snapshot_data
write_modules native [] b = (true, b)
write_modules native (d ∷ ds) b =
    let b' = after_write (write_snapshot_data native d b) in
    let rest = write_modules native ds b' in if b'.error then (false, b') else rest

unfoldable pub make_snapshot : Bool → List SnapshotData → WriteBuffer → Bool × WriteBuffer
unfolding write_modules
make_snapshot native ds b = write_modules native ds (write_fixed native 8 b (length ds))

-- The loop of `LoadSnapshotData`, which appends to `m_Modules`.
unfoldable pub read_modules :
    Bool
    → (ℕ → ℕ)
    → ℕ
    → List SnapshotData
    → ReadBuffer
    → Option (Bool × List SnapshotData × ReadBuffer)
unfolding read_snapshot_data
read_modules native junk zero modules r = some (true, modules, r)
read_modules native junk (suc rounds) modules r = do
  (d, r') ← shift_in (read_snapshot_data native junk new_snapshot_data r)
  elim (r'.error) [
    | true ↦ some (false, modules, r')
    | false ↦ read_modules native (λ i. junk (i + 7)) rounds (modules ++ (d ∷ [])) r'
  ]

unfoldable pub load_snapshot_data :
    Bool → (ℕ → ℕ) → List SnapshotData → ReadBuffer → Option (Bool × List SnapshotData × ReadBuffer)
unfolding read_modules
load_snapshot_data native junk modules r = do
  (count, r') ← read_fixed native 8 r (junk 0)
  elim (r'.error) [
    | true ↦ some (false, modules, r')
    | false ↦ read_modules native (λ i. junk (i + 1)) count modules r'
  ]
