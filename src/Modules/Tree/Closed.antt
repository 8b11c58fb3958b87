-- ===== src/Modules/Tree/Closed.antt =====
-- After a load that succeeds, what the modules of the map import is in the map.
use v8app.Base.{
  ℕ, zero, suc, ◌≡◌, refl, ap, subst, ◌∙◌, true, Option, none, some, List, [], ◌∷◌, All, Bool-cases,
  Option-cases, inl, inr,
}
use v8app.Modules.{JsModuleAttributesInfo}
use v8app.Modules.Table.{Key, lookup, place, has_path, lookup-place, key_eq}
use v8app.Modules.Tree.{
  Info, Map, Host, Request, Load, loaded, key_of, request_info, requests, load_file, load_requests,
  load_module_tree,
}
use v8app.Modules.Tree.Rules.{
  load_request_rule, and_then_rule, add_module_rule, request_info-returns, load_file-returns,
  load_file_path,
}
use v8app.Modules.Tree.Extends.{
  Extends, same, lookup-Extends, has_path-Extends, has_path-added, load_module_tree-Extends,
  load_requests-Extends,
}

module _ (host : Host) (build : JsModuleAttributesInfo → List ℕ → List ℕ → Option Info) where
  -- A request that comes to a module whose path is in the map.
  unfoldable pub IsFound : Map → Info → Request → Type 0
  IsFound m i q = (j : Info) × (request_info build i q ≡ loaded j) × (has_path j.path m ≡ true)

  unfoldable pub IsResolved : Map → Info → Type 0
  unfolding IsFound
  IsResolved m i = All (IsFound m i) (requests host i)

  unfoldable pub IsClosed : Map → Type 0
  unfolding IsResolved
  IsClosed m = (k : Key) (i : Info) → lookup k m ≡ some i → IsResolved m i

  all-Extends :
      {m m' : Map} (i : Info) (qs : List Request)
      → Extends m m'
      → All (IsFound m i) qs
      → All (IsFound m' i) qs
  unfolding IsFound
  all-Extends i [] e all = tt
  all-Extends i (q ∷ qs) e ((j, f, here), all) =
      ((j, f, has_path-Extends j.path e here), all-Extends i qs e all)

  -- The entries of `m'` that `m` does not have are resolved.
  record Closes (m m' : Map) : Type 0 where
    entries : (k : Key) (i : Info) → lookup k m' ≡ some i → lookup k m ≡ none → IsResolved m' i

  Closes-same : (m : Map) → Closes m m
  Closes-same m = record { entries = λ k i here new. cc }

  Closes-trans : {m m' m'' : Map} → Extends m' m'' → Closes m m' → Closes m' m'' → Closes m m''
  unfolding IsResolved
  Closes-trans {m} {m'} {m''} e p q = record {
    entries = λ k i here new. elim (Option-cases (lookup k m')) [
      | inl f ↦ q.entries k i here f
      | inr (j, f) ↦ all-Extends i (requests host i) e (p.entries k i (kept k i j here f) new)
    ];
  }
    where
      kept :
          (k : Key) (i j : Info)
          → lookup k m'' ≡ some i
          → lookup k m' ≡ some j
          → lookup k m' ≡ some i
      kept k i j here f = let g = lookup-Extends k j e f in cc

  Loads : Map → Info → Load Info × Map → Type 0
  Loads m i x = (j : Info) → x.0 ≡ loaded j → Closes m x.1 × (has_path i.path x.1 ≡ true)

  Finds : Map → Info → List Request → Load Info × Map → Type 0
  Finds m i qs x = (j : Info) → x.0 ≡ loaded j → Closes m x.1 × All (IsFound x.1 i) qs × (j ≡ i)

  load_requests-Finds :
      (load : Map → Info → Load Info × Map)
      → ((m : Map) (i : Info) → Extends m (load m i).1)
      → ((m : Map) (i : Info) → Loads m i (load m i))
      → (info : Info) (qs : List Request) (m : Map)
      → Finds m info qs (load_requests host build load info qs m)
  unfolding load_requests Finds Loads IsFound
  load_requests-Finds load l t info [] m = λ j e. (Closes-same m, tt, cc)
  load_requests-Finds load l t info (q ∷ qs) m =
      load_request_rule (Finds m info (q ∷ qs)) load (request_info build info q) m _
        (request_info-returns build info q) (λ j e. cc) (λ j e. cc)
        (λ i e here j f.
          let (c, a, s) = load_requests-Finds load l t info qs m j f in
          (c, ((i, e, has_path-Extends i.path (grown m) here), a), s))
        (λ i e new.
          and_then_rule (Finds m info (q ∷ qs)) (load m i) _ (λ j f. cc) (λ j f. cc) (λ o j f. cc)
            (λ i' f j g.
              let (c, a, s) = load_requests-Finds load l t info qs (load m i).1 j g in
              let (d, here) = t m i i' f in
              (
                Closes-trans (grown (load m i).1) d c,
                ((i, e, has_path-Extends i.path (grown (load m i).1) here), a),
                s,
              )))
    where
      grown : (m : Map) → Extends m (load_requests host build load info qs m).1
      grown m = load_requests-Extends host build load l m info qs m same

  -- The module itself, whose requests are found.
  Closes-root :
      (i : Info) (m r : Map)
      → lookup (key_of i) m ≡ none
      → Extends (place (key_of i) i m) r
      → Closes (place (key_of i) i m) r
      → All (IsFound r i) (requests host i)
      → Closes m r
  unfolding IsResolved
  Closes-root i m r free e c found = record {
    entries = λ k j here new. elim (Bool-cases (key_eq (key_of i) k)) [
      | inl f ↦
          let there = lookup-Extends k i e (lookup-place (key_of i) k i m free ∙ rw f refl) in
          let root : i ≡ j = cc in subst (λ x. All (IsFound r x) (requests host x)) root found
      | inr f ↦ c.entries k j here (lookup-place (key_of i) k i m free ∙ rw f new)
    ];
  }

  load_module_tree-Loads :
      (fuel : ℕ) (m : Map) (info : Info) → Loads m info (load_module_tree host build fuel m info)
  unfolding load_module_tree Loads Finds
  load_module_tree-Loads zero m info = λ j e. cc
  load_module_tree-Loads (suc fuel) m info =
      add_module_rule (Loads m info) m (load_file host info) _ (load_file-returns host info)
        (λ j e. cc) (λ j e. cc)
        (λ i e free j f.
          let (c, a, s) =
            load_requests-Finds (λ m' j. load_module_tree host build fuel m' j)
              (λ m' j. load_module_tree-Extends host build fuel m' j)
              (λ m' j. load_module_tree-Loads fuel m' j) i (requests host i) (place (key_of i) i m)
              j f in
          let grown =
            load_requests-Extends host build (λ m' j. load_module_tree host build fuel m' j)
              (λ m' j. load_module_tree-Extends host build fuel m' j) (place (key_of i) i m) i
              (requests host i) (place (key_of i) i m) same in
          (
            Closes-root i m _ free grown c a,
            has_path-Extends info.path grown
                (has_path-added info.path i m (load_file_path host info i e)),
          ))

-- A load that succeeds leaves the map with the module's path in it and closed, if it was closed before:
-- each module in the map has only requests that are valid and lead to a path in the map, so all that
-- can be reached from the module by imports is there.
pub load_module_tree-IsClosed :
    (host : Host) (build : JsModuleAttributesInfo → List ℕ → List ℕ → Option Info) (fuel : ℕ)
    (m : Map) (info j : Info)
    → IsClosed host build m
    → (load_module_tree host build fuel m info).0 ≡ loaded j
    → IsClosed host build (load_module_tree host build fuel m info).1
      × (has_path info.path (load_module_tree host build fuel m info).1 ≡ true)
unfolding IsClosed Loads IsResolved
load_module_tree-IsClosed host build fuel m info j closed e =
    let (c, here) = load_module_tree-Loads host build fuel m info j e in
    let grown = load_module_tree-Extends host build fuel m info in
    (
      λ k i f. elim (Option-cases (lookup k m)) [
        | inl new ↦ c.entries k i f new
        | inr (x, g) ↦
            let kept = lookup-Extends k x grown g in
            let root : x ≡ i = cc in
            all-Extends host build i (requests host i) grown (closed k i (g ∙ ap some root))
      ],
      here,
    )
