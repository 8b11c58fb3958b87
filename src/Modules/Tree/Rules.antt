-- ===== src/Modules/Tree/Rules.antt =====
-- What holds of the ways in which a step of the load can end holds of the step.
use v8app.Base.{
  arith, ◌≡◌, ◌≢◌, refl, Bool, true, false, Option, none, some, List, ℕ, Option-cases, inl, inr,
}
use v8app.Modules.{JsModuleAttributesInfo, new_attributes_info}
use v8app.Modules.Attributes.{get_module_attributes_info}
use v8app.Modules.Table.{
  Key, lookup, place, insert, get_module_by_specifier, has_path, has_path-get, get-none, insert_new,
  insert_old,
}
use v8app.Modules.Tree.{
  Info, Map, Host, Request, Load, null, unreachable, out_of_fuel, loaded, and_then, unless_cached,
  load_request, if_inserted, key_of, add_module, request_info, build_request, info_or_null,
  load_file, compiled, parsed,
}

-- A computation that failed, whatever the reason.
pub and_then_rule {ℓ} :
    (P : Load Info × Map → Type ℓ) (called : Load Info × Map) (rest : Map → Load Info × Map)
    → P (null, called.1)
    → P (unreachable, called.1)
    → (called.0 ≡ out_of_fuel → P (out_of_fuel, called.1))
    → ((i : Info) → called.0 ≡ loaded i → P (rest called.1))
    → P (and_then called rest)
unfolding and_then
and_then_rule P (null, m) rest n u o l = n
and_then_rule P (unreachable, m) rest n u o l = u
and_then_rule P (out_of_fuel, m) rest n u o l = o refl
and_then_rule P (loaded i, m) rest n u o l = l i refl

unless_cached_rule {ℓ} :
    (P : Load Info × Map → Type ℓ) (p : List ℕ) (rest : Map → Load Info × Map)
    (called : Load Info × Map) (m : Map)
    → (has_path p m ≡ true → P (rest m))
    → (has_path p m ≡ false → P (and_then called rest))
    → P (unless_cached (get_module_by_specifier p m) rest called m)
unfolding unless_cached
unless_cached_rule P p rest called m here new = go (get_module_by_specifier p m) refl
  where
    go : (o : Option Info) → get_module_by_specifier p m ≡ o → P (unless_cached o rest called m)
    go none e = new (get-none p m e)
    go (some c) e = here (has_path-get p c m e)

pub request_info-returns :
    (build : JsModuleAttributesInfo → List ℕ → List ℕ → Option Info) (info : Info) (q : Request)
    → request_info build info q ≢ out_of_fuel
unfolding request_info build_request info_or_null
request_info-returns build info q =
    answered (get_module_attributes_info true q.attributes new_attributes_info)
  where
    answered :
        (a : Option (Bool × JsModuleAttributesInfo)) → build_request build info q a ≢ out_of_fuel
    answered none = λ e. cc
    answered (some (ok, a)) = ground arith

pub load_file-returns : (host : Host) (info : Info) → load_file host info ≢ out_of_fuel
unfolding load_file compiled parsed
load_file-returns host info = ground arith

pub load_file_path :
    (host : Host) (info i : Info) → load_file host info ≡ loaded i → i.path ≡ info.path
unfolding load_file compiled parsed
load_file_path host info i = ground arith

pub load_request_rule {ℓ} :
    (P : Load Info × Map → Type ℓ) (load : Map → Info → Load Info × Map) (r : Load Info) (m : Map)
    (rest : Map → Load Info × Map)
    → r ≢ out_of_fuel
    → P (null, m)
    → P (unreachable, m)
    → ((i : Info) → r ≡ loaded i → has_path i.path m ≡ true → P (rest m))
    → ((i : Info) → r ≡ loaded i → has_path i.path m ≡ false → P (and_then (load m i) rest))
    → P (load_request load r m rest)
unfolding load_request
load_request_rule P load null m rest o n u here new = n
load_request_rule P load unreachable m rest o n u here new = u
load_request_rule P load out_of_fuel m rest o n u here new = absurd (o refl)
load_request_rule P load (loaded i) m rest o n u here new =
    unless_cached_rule P i.path rest (load m i) m (here i refl) (new i refl)

if_inserted_rule {ℓ} :
    (P : Load Info × Map → Type ℓ) (k : Key) (i : Info) (m : Map) (rest : Map → Load Info × Map)
    → P (null, m)
    → (lookup k m ≡ none → P (rest (place k i m)))
    → P (if_inserted (insert k i m) rest)
unfolding if_inserted
if_inserted_rule P k i m rest n new = elim (Option-cases (lookup k m)) [
  | inl e ↦ rw (insert_new k i m e) (new e)
  | inr (a, e) ↦ rw (insert_old k i a m e) n
]

pub add_module_rule {ℓ} :
    (P : Load Info × Map → Type ℓ) (m : Map) (f : Load Info) (rest : Info → Map → Load Info × Map)
    → f ≢ out_of_fuel
    → P (null, m)
    → P (unreachable, m)
    → ((i : Info) → f ≡ loaded i → lookup (key_of i) m ≡ none → P (rest i (place (key_of i) i m)))
    → P (add_module m f rest)
unfolding add_module
add_module_rule P m null rest o n u l = n
add_module_rule P m unreachable rest o n u l = u
add_module_rule P m out_of_fuel rest o n u l = absurd (o refl)
add_module_rule P m (loaded i) rest o n u l =
    if_inserted_rule P (key_of i) i m (rest i) n (l i refl)
