-- ===== src/Modules/Tree/Termination.antt =====
-- Loading a module ends: each call adds a module under a path that is new.
use v8app.Base.{
  ℕ, zero, suc, ◌≤◌, ◌<◌, ◌≡◌, ◌≢◌, Bool, true, false, ◌||◌, Option, List, [], ◌∷◌, arith, list_eq,
  list_eq_iff, if◌then◌else◌, length,
}
use v8app.Modules.{JsModuleAttributesInfo}
use v8app.Modules.Table.{place, has_path}
use v8app.Modules.Tree.{
  Info, Map, Host, Request, Load, out_of_fuel, loaded, key_of, request_info, requests, load_file,
  load_requests, load_module_tree,
}
use v8app.Modules.Tree.Rules.{
  load_request_rule, and_then_rule, add_module_rule, request_info-returns, load_file-returns,
  load_file_path,
}
use v8app.Modules.Tree.Extends.{
  Extends, same, added, has_path-Extends, has_path-added, load_module_tree-Extends,
}

unfoldable pub has_file : List ℕ → List (List ℕ) → Bool
has_file p [] = false
has_file p (f ∷ files) = list_eq f p || has_file p files

-- The files of which no module is in the map.
unloaded : List (List ℕ) → Map → ℕ
unloaded [] m = 0
unloaded (f ∷ files) m = if has_path f m then unloaded files m else suc (unloaded files m)

unloaded_le : (files : List (List ℕ)) (m : Map) → unloaded files m ≤ length files
unfolding unloaded
unloaded_le [] m = omega arith
unloaded_le (f ∷ files) m = ground (arith, unloaded_le files m)

unloaded-Extends :
    (files : List (List ℕ)) {m m' : Map} → Extends m m' → unloaded files m' ≤ unloaded files m
unfolding unloaded
unloaded-Extends [] e = omega arith
unloaded-Extends (f ∷ files) e =
    let kept = has_path-Extends f e in ground (arith, unloaded-Extends files e)

unloaded_falls :
    (files : List (List ℕ)) (p : List ℕ) {m m' : Map}
    → Extends m m'
    → has_file p files ≡ true
    → has_path p m ≡ false
    → has_path p m' ≡ true
    → unloaded files m' < unloaded files m
unfolding unloaded has_file
unloaded_falls [] p e here before after = cc
unloaded_falls (f ∷ files) p {m} {m'} e here before after =
    let kept = has_path-Extends f e in
    ground (arith, list_eq_iff f p, unloaded-Extends files e, unloaded_falls files p e)

module _ (host : Host) (build : JsModuleAttributesInfo → List ℕ → List ℕ → Option Info)
    (files : List (List ℕ)) where
  Ends : Load Info × Map → Type 0
  Ends x = x.0 ≢ out_of_fuel

  load_requests-Ends :
      (load : Map → Info → Load Info × Map) (fuel : ℕ)
      → ((m : Map) (i : Info) → Extends m (load m i).1)
      → ((m : Map) (i : Info)
          → unloaded files m < fuel
          → has_path i.path m ≡ false
          → Ends (load m i))
      → (info : Info) (qs : List Request) (m : Map) → unloaded files m < fuel
      → Ends (load_requests host build load info qs m)
  unfolding load_requests Ends
  load_requests-Ends load fuel l t info [] m h = λ e. cc
  load_requests-Ends load fuel l t info (q ∷ qs) m h =
      load_request_rule Ends load (request_info build info q) m _
        (request_info-returns build info q) (λ e. cc) (λ e. cc)
        (λ i e here. load_requests-Ends load fuel l t info qs m h)
        (λ i e new.
          and_then_rule Ends (load m i) _ (λ e. cc) (λ e. cc) (λ f. absurd (t m i h new f))
            (λ j f.
              load_requests-Ends load fuel l t info qs (load m i).1
                (omega (arith, unloaded-Extends files (l m i)))))

  load_module_tree-Ends :
      ((info i : Info) → load_file host info ≡ loaded i → has_file info.path files ≡ true)
      → (fuel : ℕ) (m : Map) (info : Info) → unloaded files m < fuel
      → has_path info.path m ≡ false
      → Ends (load_module_tree host build fuel m info)
  unfolding load_module_tree Ends
  load_module_tree-Ends finite zero m info h new = absurd (omega arith)
  load_module_tree-Ends finite (suc fuel) m info h new =
      add_module_rule Ends m (load_file host info) _ (load_file-returns host info) (λ e. cc)
        (λ e. cc)
        (λ i e free.
          load_requests-Ends (λ m' j. load_module_tree host build fuel m' j) fuel
            (λ m' j. load_module_tree-Extends host build fuel m' j)
            (λ m' j. load_module_tree-Ends finite fuel m' j) i (requests host i)
            (place (key_of i) i m)
            (omega (
              arith,
              unloaded_falls files info.path (added (key_of i) i same free) (finite info i e) new
                  (has_path-added info.path i m (load_file_path host info i e)),
            )))

-- Loading a module that is not in the map yet ends, whatever imports what, with fuel for one call more
-- than there are files that a module can be loaded from.
pub load_module_tree_terminates :
    (host : Host) (build : JsModuleAttributesInfo → List ℕ → List ℕ → Option Info)
    (files : List (List ℕ)) (fuel : ℕ) (m : Map) (info : Info)
    → ((info i : Info) → load_file host info ≡ loaded i → has_file info.path files ≡ true)
    → length files < fuel
    → has_path info.path m ≡ false
    → (load_module_tree host build fuel m info).0 ≢ out_of_fuel
unfolding Ends
load_module_tree_terminates host build files fuel m info finite enough new =
    load_module_tree-Ends host build files finite fuel m info (omega (arith, unloaded_le files m))
      new
