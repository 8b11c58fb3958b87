-- ===== src/Assets/Scan/Latest.antt =====
-- The version that the scan of a module's directory keeps.
use v8app.Base.{
  ℕ, ◌≡◌, ◌⊎◌, ◌∙◌, refl, sym, ap, subst, Bool, true, false, Option, none, some, List, [], ◌∷◌,
  arith, if◌then◌else◌, find, find-place_same, place, path_append, All, Bool-cases, inl, inr,
  if_true, if_false,
}
use v8app.Versions.{VersionString, compare_versions, less}
use v8app.Versions.Order.{compare_versions_self}
use v8app.Versions.Transitive.{compare_versions_trans, compare_versions-IsSigned}
use v8app.Assets.{
  AppAssetRoots, add_module_root_path, get_modules_latest_version, set_modules_latest_version,
  assign, replace, version_or_none,
}
use v8app.Assets.Scan.{DirEntry, version_of, version_ltb, keep_latest, scan_version, scan_versions}

version_ltb-less :
    (a b : VersionString)
    → a.valid ≡ true
    → b.valid ≡ true
    → version_ltb a b ≡ true
    → compare_versions a b ≡ less
unfolding version_ltb
version_ltb-less a b va vb h = compare_versions-IsSigned a b va vb h

less-version_ltb : (a b : VersionString) → compare_versions a b ≡ less → version_ltb a b ≡ true
unfolding version_ltb
less-version_ltb a b e = rw e refl

version_ltb_self : (a : VersionString) → a.valid ≡ true → version_ltb a a ≡ false
unfolding version_ltb
version_ltb_self a va = rw (compare_versions_self a va) refl

-- If a version is not less than another, a greater one is not either.
version_ltb_above :
    (a b u : VersionString)
    → a.valid ≡ true
    → b.valid ≡ true
    → u.valid ≡ true
    → version_ltb a b ≡ true
    → version_ltb a u ≡ false
    → version_ltb b u ≡ false
version_ltb_above a b u va vb vu h g = elim (Bool-cases (version_ltb b u)) [
  | inl e ↦
      let c =
        compare_versions_trans a b u va vb vu (version_ltb-less a b va vb h)
          (version_ltb-less b u vb vu e) in
      let d = less-version_ltb a u c in absurd (cc)
  | inr e ↦ e
]

find-replace :
    (name : List ℕ) (v old : VersionString) (m : List (List ℕ × VersionString))
    → find name m ≡ some old
    → find name (replace name v m) ≡ some v
find-replace name v old [] e = cc
find-replace name v old ((k, w) ∷ m) e = ground (arith, find-replace name v old m)

find-assign :
    (name : List ℕ) (v : VersionString) (m : List (List ℕ × VersionString))
    → find name (assign name v m) ≡ some v
find-assign name v m = by_entry (find name m) refl
  where
    by_entry :
        (o : Option VersionString)
        → find name m ≡ o
        → find name (elim o [ some old ↦ replace name v m | none ↦ place name v m ]) ≡ some v
    by_entry none e = find-place_same name v m e
    by_entry (some old) e = find-replace name v old m e

get-set_modules_latest_version :
    (name : List ℕ) (v : VersionString) (roots : AppAssetRoots)
    → get_modules_latest_version name (set_modules_latest_version name v roots) ≡ v
unfolding get_modules_latest_version set_modules_latest_version
get-set_modules_latest_version name v roots =
    ap version_or_none (find-assign name v roots.module_latest_version)

-- A version that is one, and not less than another.
pub record IsAbove (latest u : VersionString) : Type 0 where
  pub known : latest.valid ≡ true
  pub above : version_ltb latest u ≡ false

-- What `keep_latest` makes of the latest version.
get-keep_latest :
    (name : List ℕ) (v : VersionString) (roots : AppAssetRoots)
    → get_modules_latest_version name (keep_latest name v roots) ≡ (
        if (get_modules_latest_version name roots).valid
        then (if version_ltb (get_modules_latest_version name roots) v
            then v
            else get_modules_latest_version name roots)
        else v)
unfolding keep_latest
get-keep_latest name v roots = ground (arith, get-set_modules_latest_version name v roots)

abbrev pick : Bool → Bool → VersionString → VersionString → VersionString
pick known older latest v = if known then (if older then v else latest) else v

pick-IsAbove :
    (known older : Bool) (latest v u : VersionString)
    → latest.valid ≡ known
    → version_ltb latest v ≡ older
    → v.valid ≡ true
    → u.valid ≡ true
    → IsAbove latest u
    → IsAbove (pick known older latest v) u
pick-IsAbove true true latest v u l e vv vu h = record {
  known = vv;
  above = version_ltb_above latest v u h.known vv vu e h.above;
}
pick-IsAbove true false latest v u l e vv vu h = h
pick-IsAbove false older latest v u l e vv vu h = let k = h.known in absurd (cc)

pick_new :
    (known older : Bool) (latest v : VersionString)
    → latest.valid ≡ known
    → version_ltb latest v ≡ older
    → v.valid ≡ true
    → IsAbove (pick known older latest v) v
pick_new true true latest v l e vv = record { known = vv; above = version_ltb_self v vv }
pick_new true false latest v l e vv = record { known = l; above = e }
pick_new false older latest v l e vv = record { known = vv; above = version_ltb_self v vv }

get-add_module_root_path :
    (name key path : List ℕ) (roots : AppAssetRoots)
    → get_modules_latest_version name (add_module_root_path key path roots).1
      ≡ get_modules_latest_version name roots
unfolding get_modules_latest_version add_module_root_path
get-add_module_root_path name key path roots = refl

-- What holds of the version that is picked holds of the latest one after an entry that is a version.
get-scan_version {ℓ} :
    (P : VersionString → Type ℓ) (name dir : List ℕ) (entry : DirEntry) (roots : AppAssetRoots)
    → (version_of entry).valid ≡ true
    → P (
        pick
          (get_modules_latest_version name roots).valid
          (version_ltb (get_modules_latest_version name roots) (version_of entry))
          (get_modules_latest_version name roots)
          (version_of entry))
    → P (get_modules_latest_version name (scan_version name dir entry roots))
unfolding scan_version
get-scan_version P name dir entry roots v p = rw (if_true _ _ _ v) (
    subst P (sym (get-keep_latest name (version_of entry) _)) (
      subst (λ l. P (pick l.valid (version_ltb l (version_of entry)) l (version_of entry)))
        (sym (
          get-add_module_root_path name (path_append name entry.name) (path_append dir entry.name)
            roots))
        p))

scan_version-IsAbove :
    (name dir : List ℕ) (entry : DirEntry) (u : VersionString) (roots : AppAssetRoots)
    → u.valid ≡ true
    → IsAbove (get_modules_latest_version name roots) u
    → IsAbove (get_modules_latest_version name (scan_version name dir entry roots)) u
scan_version-IsAbove name dir entry u roots vu h = elim (Bool-cases (version_of entry).valid) [
  | inl v ↦
      get-scan_version (λ l. IsAbove l u) name dir entry roots v
        (pick-IsAbove _ _ (get_modules_latest_version name roots) (version_of entry) u refl refl v
          vu h)
  | inr v ↦ unfold scan_version in (rw (if_false _ _ _ v) h)
]

scan_versions-IsAbove :
    (name dir : List ℕ) (entries : List DirEntry) (u : VersionString) (roots : AppAssetRoots)
    → u.valid ≡ true
    → IsAbove (get_modules_latest_version name roots) u
    → IsAbove (get_modules_latest_version name (scan_versions name dir entries roots)) u
unfolding scan_versions
scan_versions-IsAbove name dir [] u roots vu h = h
scan_versions-IsAbove name dir (entry ∷ entries) u roots vu h =
    scan_versions-IsAbove name dir entries u (scan_version name dir entry roots) vu
      (scan_version-IsAbove name dir entry u roots vu h)

-- A version of one of the entries.
pub data IsAmong : List DirEntry → VersionString → Type 0 where
  first :
      {entry : DirEntry} {entries : List DirEntry} {v : VersionString}
      → (version_of entry).valid ≡ true
      → v ≡ version_of entry
      → IsAmong (entry ∷ entries) v
  later :
      {entry : DirEntry} {entries : List DirEntry} {v : VersionString}
      → IsAmong entries v
      → IsAmong (entry ∷ entries) v

pick_either :
    (known older : Bool) (latest v : VersionString)
    → (pick known older latest v ≡ latest) ⊎ (pick known older latest v ≡ v)
pick_either true true latest v = inr refl
pick_either true false latest v = inl refl
pick_either false older latest v = inr refl

scan_version_either :
    (name dir : List ℕ) (entry : DirEntry) (roots : AppAssetRoots)
    → (get_modules_latest_version name (scan_version name dir entry roots)
        ≡ get_modules_latest_version name roots)
      ⊎ ((version_of entry).valid ≡ true)
        × (get_modules_latest_version name (scan_version name dir entry roots) ≡ version_of entry)
scan_version_either name dir entry roots = elim (Bool-cases (version_of entry).valid) [
  | inl v ↦
      get-scan_version
        (λ l.
          (l ≡ get_modules_latest_version name roots)
          ⊎ ((version_of entry).valid ≡ true) × (l ≡ version_of entry))
        name dir entry roots v
        (elim (pick_either (get_modules_latest_version name roots).valid
          (version_ltb (get_modules_latest_version name roots) (version_of entry))
          (get_modules_latest_version name roots) (version_of entry)) [
            | inl e ↦ inl e
            | inr e ↦ inr (v, e)
          ])
  | inr v ↦ inl (unfold scan_version in rw (if_false _ _ _ v) refl)
]

scan_versions_either :
    (name dir : List ℕ) (entries : List DirEntry) (roots : AppAssetRoots)
    → (get_modules_latest_version name (scan_versions name dir entries roots)
        ≡ get_modules_latest_version name roots)
      ⊎ IsAmong entries (get_modules_latest_version name (scan_versions name dir entries roots))
unfolding scan_versions
scan_versions_either name dir [] roots = inl refl
scan_versions_either name dir (entry ∷ entries) roots =
    elim (scan_versions_either name dir entries (scan_version name dir entry roots)) [
      | inr among ↦ inr (later among)
      | inl same ↦ elim (scan_version_either name dir entry roots) [
        | inl old ↦ inl (same ∙ old)
        | inr (v, e) ↦ inr (first v (same ∙ e))
      ]
    ]

scan_versions-All :
    (name dir : List ℕ) (entries : List DirEntry) (roots : AppAssetRoots)
    → All
        (λ entry.
          (version_of entry).valid ≡ true
          → IsAbove
              (get_modules_latest_version name (scan_versions name dir entries roots))
              (version_of entry))
        entries
unfolding scan_versions
scan_versions-All name dir [] roots = tt
scan_versions-All name dir (entry ∷ entries) roots = (
  λ v.
      scan_versions-IsAbove name dir entries (version_of entry) (scan_version name dir entry roots)
        v
        (get-scan_version (λ l. IsAbove l (version_of entry)) name dir entry roots v
          (pick_new _ _ (get_modules_latest_version name roots) (version_of entry) refl refl v)),
  scan_versions-All name dir entries (scan_version name dir entry roots),
)

-- After the scan of a module's directory the latest version is the one from before or one of the versions
-- that stand in the directory; and for each of these it is a version and not less than this one.
pub scan_versions_latest :
    (name dir : List ℕ) (entries : List DirEntry) (roots : AppAssetRoots)
    → ((get_modules_latest_version name (scan_versions name dir entries roots)
          ≡ get_modules_latest_version name roots)
        ⊎ IsAmong entries (get_modules_latest_version name (scan_versions name dir entries roots)))
      × All
          (λ entry.
            (version_of entry).valid ≡ true
            → IsAbove
                (get_modules_latest_version name (scan_versions name dir entries roots))
                (version_of entry))
          entries
scan_versions_latest name dir entries roots =
    (scan_versions_either name dir entries roots, scan_versions-All name dir entries roots)
