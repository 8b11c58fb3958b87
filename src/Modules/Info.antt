-- ===== src/Modules/Info.antt =====
-- JSModuleInfo (JSModuleInfo.h, JSModuleInfo.cc): a module, with V8's module, JSON value and script for it.
use v8app.Base.{
  ℕ, ◌≡◌, refl, inl, inr, Option-cases, Bool, true, Option, none, some, List, [], ◌>>=◌,
  if◌then◌else◌,
}
use v8app.Versions.{VersionString, new_version}
use v8app.Versions.Parse.{set_version_string}
use v8app.Modules.{JsModuleType, JsModuleAttributesInfo, new_attributes_info}
use v8app.Modules.Wire.{SnapshotData, new_snapshot_data}

pub record JsModuleInfo (Module Value Script : Type 0) : Type 0 where
  pub type : JsModuleType
  pub path : List ℕ
  pub module_name : List ℕ
  pub version : VersionString
  pub v8_module : Option Module
  pub json : Option Value
  pub unbound_script : Option Script
  pub attributes_info : JsModuleAttributesInfo

module _ {Module Value Script : Type 0} where
  unfoldable pub new_module_info : JsModuleInfo Module Value Script
  unfolding new_version new_attributes_info
  new_module_info = record {
    type = JsModuleType.invalid;
    path = [];
    module_name = [];
    version = new_version;
    v8_module = none;
    json = none;
    unbound_script = none;
    attributes_info = new_attributes_info;
  }

  -- `SetVersion`
  unfoldable pub set_version :
      List ℕ → JsModuleInfo Module Value Script → JsModuleInfo Module Value Script
  unfolding set_version_string
  set_version text info = record info { version = (set_version_string text (info.version)).1 }

unfoldable save_module :
    {Module Creator : Type 0}
    → (Creator → Module → ℕ × Creator)
    → Option Module
    → SnapshotData
    → Creator
    → SnapshotData × Creator
save_module add none d c = (d, c)
save_module add (some m) d c =
    let (index, c') = add c m in (record d { module_data_index = index; save_module = true }, c')

unfoldable save_json :
    {Value Creator : Type 0}
    → (Creator → Value → ℕ × Creator)
    → Option Value
    → SnapshotData
    → Creator
    → SnapshotData × Creator
save_json add none d c = (d, c)
save_json add (some v) d c =
    let (index, c') = add c v in
    (record d { json_module_data_index = index; saved_json = true }, c')

unfoldable restore_handle : {A : Type 0} → Bool → (ℕ → Option A) → ℕ → Option A → Option (Option A)
restore_handle saved get index old = if saved then (get index >>= λ a. some (some a)) else some old

module _ {Module Value Script : Type 0} where
  -- `CreateSnapshotData`: V8's `AddData` gives the index of what it adds to the snapshot.
  unfoldable pub create_snapshot_data :
      {Creator : Type 0}
      → (Creator → Module → ℕ × Creator)
      → (Creator → Value → ℕ × Creator)
      → JsModuleInfo Module Value Script
      → Creator
      → SnapshotData × JsModuleInfo Module Value Script × Creator
  unfolding save_module save_json new_snapshot_data
  create_snapshot_data add_module add_value info c =
      let d = record new_snapshot_data {
        type = info.type;
        path = info.path;
        version = info.version.version;
        module_name = info.module_name;
        attribute_info = info.attributes_info;
      } in
      let (with_module, c1) = save_module add_module (info.v8_module) d c in
      let (with_json, c2) = save_json add_value (info.json) with_module c1 in
      (with_json, record info { json = none; unbound_script = none }, c2)

  -- `RestoreV8Module`: V8's `GetDataFromSnapshotOnce` gives what stands at an index, and `none` is the
  -- failure of `ToLocalChecked`, that ends the program.
  unfoldable pub restore_v8_module :
      (ℕ → Option Module)
      → (ℕ → Option Value)
      → SnapshotData
      → JsModuleInfo Module Value Script
      → Option (JsModuleInfo Module Value Script)
  unfolding restore_handle set_version
  restore_v8_module get_module get_value d info = do
    v8_module ← restore_handle (d.save_module) get_module (d.module_data_index) (info.v8_module)
    json ← restore_handle (d.saved_json) get_value (d.json_module_data_index) (info.json)
    some (record (set_version (d.version) info) {
      type = d.type;
      module_name = d.module_name;
      path = d.path;
      attributes_info = d.attribute_info;
      v8_module = v8_module;
      json = json;
    })

-- What V8 says of the data of a snapshot: what is added stands at the index that comes back, what was
-- added before stays where it is, and a snapshot has what its creator held.
pub record KeepsData {Module Value Creator : Type 0} (add_module : Creator → Module → ℕ × Creator)
    (add_value : Creator → Value → ℕ × Creator) (module_at : Creator → ℕ → Option Module)
    (value_at : Creator → ℕ → Option Value) : Type 0 where
  pub added_module :
      (c : Creator) (m : Module) → module_at (add_module c m).1 (add_module c m).0 ≡ some m
  pub added_value :
      (c : Creator) (v : Value) → value_at (add_value c v).1 (add_value c v).0 ≡ some v
  pub module_stays :
      (c : Creator) (v : Value) (i : ℕ) (m : Module)
      → module_at c i ≡ some m
      → module_at (add_value c v).1 i ≡ some m

-- A module that goes into a snapshot comes out of it as it was, but for its script, into a fresh object:
-- with the type, the names, the attributes, V8's module and the JSON value, if the version is what its
-- text parses to, the creator keeps the data that it is given, and the snapshot has all that the creator
-- holds after the module.
pub restore_v8_module-create_snapshot_data :
    {Module Value Script Creator : Type 0} (add_module : Creator → Module → ℕ × Creator)
    (add_value : Creator → Value → ℕ × Creator) (module_at : Creator → ℕ → Option Module)
    (value_at : Creator → ℕ → Option Value) (get_module : ℕ → Option Module)
    (get_value : ℕ → Option Value) (info : JsModuleInfo Module Value Script) (c : Creator)
    → KeepsData add_module add_value module_at value_at
    → ((i : ℕ) (m : Module)
        → module_at (create_snapshot_data add_module add_value info c).2 i ≡ some m
        → get_module i ≡ some m)
    → ((i : ℕ) (v : Value)
        → value_at (create_snapshot_data add_module add_value info c).2 i ≡ some v
        → get_value i ≡ some v)
    → (set_version_string info.version.version new_version).1 ≡ info.version
    → restore_v8_module get_module get_value
        (create_snapshot_data add_module add_value info c).0
        new_module_info
      ≡ some (record info { unbound_script = none })
unfolding create_snapshot_data restore_v8_module set_version new_module_info save_module save_json
    restore_handle new_snapshot_data
restore_v8_module-create_snapshot_data add_module add_value module_at value_at get_module get_value
      info c k ms vs parsed =
    elim (Option-cases info.v8_module) [
      | inl e ↦ elim (Option-cases info.json) [
        | inl f ↦ rw (e, f, parsed) refl
        | inr (v, f) ↦
            rw (e, f, vs (add_value c v).0 v (rw (e, f) (k.added_value c v)), parsed) refl
      ]
      | inr (m, e) ↦ elim (Option-cases info.json) [
        | inl f ↦ rw (e, f, ms (add_module c m).0 m (rw (e, f) (k.added_module c m)), parsed) refl
        | inr (v, f) ↦
            rw
              (
                e,
                f,
                ms (add_module c m).0 m (
                    rw (e, f)
                      (k.module_stays (add_module c m).1 v (add_module c m).0 m
                        (k.added_module c m))),
                vs (add_value (add_module c m).1 v).0 v
                    (rw (e, f) (k.added_value (add_module c m).1 v)),
                parsed,
              )
              refl
      ]
    ]
