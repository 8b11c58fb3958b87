-- ===== src/Modules/Tree/Extends.antt =====
-- The map of modules only grows while a module is loaded.
use v8app.Base.{
  ℕ, zero, suc, ◌≡◌, refl, Bool, true, false, ◌||◌, Option, none, some, List, [], ◌∷◌, list_eq,
  list_eq_refl,
}
use v8app.Modules.{JsModuleAttributesInfo}
use v8app.Modules.Table.{Key, lookup, place, has_path, lookup-place_new, has_path-place}
use v8app.Modules.Tree.Rules.{
  load_request_rule, and_then_rule, add_module_rule, request_info-returns, load_file-returns,
}
use v8app.Modules.Tree.{
  Info, Map, Host, Request, Load, key_of, request_info, requests, load_file, load_requests,
  load_module_tree,
}

pub data Extends (m : Map) : Map → Type 0 where
  same : Extends m m
  added :
      {m' : Map} (k : Key) (i : Info) → Extends m m' → lookup k m' ≡ none → Extends m (place k i m')

pub Extends-trans : {m m' m'' : Map} → Extends m m' → Extends m' m'' → Extends m m''
Extends-trans p same = p
Extends-trans p (added k i q new) = added k i (Extends-trans p q) new

pub lookup-Extends :
    {m m' : Map} (k : Key) (i : Info) → Extends m m' → lookup k m ≡ some i → lookup k m' ≡ some i
lookup-Extends k i same e = e
lookup-Extends k i (added {m'} j x p new) e =
    lookup-place_new k j i x m' (lookup-Extends k i p e) new

pub has_path-Extends :
    {m m' : Map} (p : List ℕ) → Extends m m' → has_path p m ≡ true → has_path p m' ≡ true
has_path-Extends p same h = h
has_path-Extends p (added {m'} k i e new) h =
    rw (has_path-place k p i m', has_path-Extends p e h) (or_true (list_eq k.path p))
  where
    or_true : (b : Bool) → (b || true) ≡ true
    or_true true = refl
    or_true false = refl

pub has_path-added :
    (p : List ℕ) (i : Info) (m : Map) → i.path ≡ p → has_path p (place (key_of i) i m) ≡ true
unfolding key_of
has_path-added p i m e = rw (has_path-place (key_of i) p i m, e, list_eq_refl p) refl

pub load_requests-Extends :
    (host : Host) (build : JsModuleAttributesInfo → List ℕ → List ℕ → Option Info)
    (load : Map → Info → Load Info × Map)
    → ((m : Map) (i : Info) → Extends m (load m i).1)
    → (m0 : Map) (info : Info) (qs : List Request) (m : Map) → Extends m0 m
    → Extends m0 (load_requests host build load info qs m).1
unfolding load_requests
load_requests-Extends host build load l m0 info [] m p = p
load_requests-Extends host build load l m0 info (q ∷ qs) m p =
    load_request_rule (λ x. Extends m0 x.1) load (request_info build info q) m _
      (request_info-returns build info q) p p
      (λ i e here. load_requests-Extends host build load l m0 info qs m p)
      (λ i e new.
        let p' = Extends-trans p (l m i) in
        and_then_rule (λ x. Extends m0 x.1) (load m i) _ p' p' (λ f. p')
          (λ j f. load_requests-Extends host build load l m0 info qs (load m i).1 p'))

-- What a load does is to add modules under keys that are new: no entry is changed or lost, whether the
-- load succeeds or not.
pub load_module_tree-Extends :
    (host : Host) (build : JsModuleAttributesInfo → List ℕ → List ℕ → Option Info) (fuel : ℕ)
    (m : Map) (info : Info)
    → Extends m (load_module_tree host build fuel m info).1
unfolding load_module_tree
load_module_tree-Extends host build zero m info = same
load_module_tree-Extends host build (suc fuel) m info =
    add_module_rule (λ x. Extends m x.1) m (load_file host info) _ (load_file-returns host info)
      same same
      (λ i e new.
        load_requests-Extends host build (λ m' j. load_module_tree host build fuel m' j)
          (λ m' j. load_module_tree-Extends host build fuel m' j) m i (requests host i)
          (place (key_of i) i m) (added (key_of i) i same new))
