-- ===== src/Modules/Attributes.antt =====
-- JSModuleAttributesInfo.cc, `GetModuleAttributesInfo`: the array of an import's attributes is given as
-- the texts that `V8ToString` makes of its elements.
use v8app.Base.{
  ℕ, zero, suc, ◌-◌, ◌%◌, Bool, true, false, not, ◌||◌, Option, some, List, [], ◌∷◌, ◌==◌, list_eq,
  if◌then◌else◌, codes, ◌>>=◌, length, get_elem?, drop,
}
use v8app.Versions.{VersionString}
use v8app.Versions.Parse.{set_version_string}
use v8app.Modules.{JsModuleType, JsModuleAttributesInfo}

-- The object and `invalidAttribute`.
pub record Scan : Type 0 where
  pub info : JsModuleAttributesInfo
  pub invalid_attribute : Bool

abbrev reject : Scan → Scan
reject s = record s {
  info = record (s.info) { type = JsModuleType.invalid };
  invalid_attribute = true;
}

abbrev with_type : JsModuleType → Scan → Scan
with_type type s = record s { info = record (s.info) { type = type } }

-- A value under the key `type`.
unfoldable pub take_type : List ℕ → Scan → Scan
take_type value s =
    if list_eq value (codes "json")
    then with_type JsModuleType.json s
    else if list_eq value (codes "js")
    then with_type JsModuleType.javascript s
    else if list_eq value (codes "native")
    then with_type JsModuleType.native s
    else reject s

abbrev pub with_version : Bool × VersionString → Scan → Scan
with_version (ok, version) s =
    let s' = record s { info = record (s.info) { version = version } } in
    if version.valid then s' else reject s'

-- A value under one of the three keys.
unfoldable pub take_value : List ℕ → List ℕ → Scan → Scan
unfolding take_type
take_value key value s =
    if list_eq key (codes "type")
    then take_type value s
    else if list_eq key (codes "module")
    then record s { info = record (s.info) { module_name = value } }
    else with_version (set_version_string value (s.info.version)) s

abbrev pub is_key : List ℕ → Bool
is_key key =
    list_eq key (codes "type") || list_eq key (codes "module") || list_eq key (codes "version")

-- One round of the loop, at a key with what stands behind it. `none` is an index out of range.
unfoldable pub take_attribute : List ℕ → List (List ℕ) → Scan → Option Scan
unfolding take_value
take_attribute key behind s =
    if list_eq key []
    then some s
    else if is_key key
    then (get_elem? behind 0 >>= λ value. some (take_value key value s))
    else some s

-- The loop, on fuel: each round moves on by an entry.
unfoldable pub scan_attributes : ℕ → ℕ → List (List ℕ) → Scan → Option Scan
unfolding take_attribute
scan_attributes size zero array s = some s
scan_attributes size (suc rounds) [] s = some s
scan_attributes size (suc rounds) (key ∷ array) s =
    take_attribute key array s >>= λ s'. scan_attributes size rounds (drop (size - 1) array) s'

abbrev pub entry_size : ℕ → ℕ
entry_size n = if n % 2 == 0 then 2 else 3

-- With whether the attributes are valid. Every round takes an element, so the array's length is enough.
unfoldable pub get_module_attributes_info :
    Bool → List (List ℕ) → JsModuleAttributesInfo → Option (Bool × JsModuleAttributesInfo)
unfolding scan_attributes
get_module_attributes_info has_isolate array info =
    if has_isolate
    then (scan_attributes (entry_size (length array)) (length array) array (record {
      info = record info { type = JsModuleType.javascript };
      invalid_attribute = false;
    })
        >>= λ s. some (not s.invalid_attribute, s.info))
    else some (false, record info { type = JsModuleType.invalid })
