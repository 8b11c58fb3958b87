-- ===== src/Modules.antt =====
-- The modules of a context (libs/jsRuntime): JSModuleType, the attributes of an import
-- (JSModuleAttributesInfo) and what JSModuleInfo writes into a snapshot. A text is its bytes.
pub mod Attributes
pub mod Imports
pub mod Wire
pub mod Info
pub mod Table
pub mod Tree
pub mod Context
pub mod Build
pub mod Linking
pub mod CodeCaching
pub mod Running
mod Tests
use v8app.Base.{ℕ, Bool, true, false, ◌||◌, ◌&&◌, List, [], ◌==◌, list_eq, if◌then◌else◌, codes}
use v8app.Versions.{VersionString, new_version}

pub data JsModuleType : Type 0 where
  invalid javascript json native no_attribute max_mod_type : JsModuleType

-- The value of the enumerator.
unfoldable pub type_code : JsModuleType → ℕ
type_code invalid = 0
type_code javascript = 1
type_code json = 2
type_code native = 3
type_code no_attribute = 4
type_code max_mod_type = 5

-- The cast of a number that is an enumerator's value.
unfoldable pub type_of_code : ℕ → JsModuleType
type_of_code n =
    if n == 0
    then invalid
    else if n == 1
    then javascript
    else if n == 2
    then json
    else if n == 3
    then native
    else if n == 4
    then no_attribute
    else max_mod_type

unfoldable pub type_eq : JsModuleType → JsModuleType → Bool
unfolding type_code
type_eq s t = type_code s == type_code t

-- `JSModuleInfo::ModuleTypeToString`: the enumerator's name without its `k`.
unfoldable pub module_type_to_string : JsModuleType → List ℕ
module_type_to_string invalid = codes "Invalid"
module_type_to_string javascript = codes "Javascript"
module_type_to_string json = codes "JSON"
module_type_to_string native = codes "Native"
module_type_to_string no_attribute = []
module_type_to_string max_mod_type = []

-- `JSModuleInfo::StringToModuleType`
unfoldable pub string_to_module_type : List ℕ → JsModuleType
string_to_module_type s =
    if list_eq s (codes "Invalid")
    then invalid
    else if list_eq s (codes "Javascript")
    then javascript
    else if list_eq s (codes "JSON")
    then json
    else if list_eq s (codes "Native")
    then native
    else invalid

pub record JsModuleAttributesInfo : Type 0 where
  pub type : JsModuleType
  pub version : VersionString
  pub module_name : List ℕ

unfoldable pub new_attributes_info : JsModuleAttributesInfo
unfolding new_version
new_attributes_info = record { type = no_attribute; version = new_version; module_name = [] }

-- `DoesExtensionMatchType`
unfoldable pub does_extension_match_type : JsModuleType → List ℕ → Bool
unfolding type_eq
does_extension_match_type type ext =
    if list_eq ext (codes ".json") && type_eq type json
    then true
    else if (list_eq ext (codes ".js") || list_eq ext (codes ".mjs")) && type_eq type javascript
    then true
    else if list_eq ext (codes ".vbin") && type_eq type native
    then true
    else false
