-- ===== src/Callbacks/Infos.antt =====
-- The object infos of the registry.
use v8app.Base.{
  ℕ, ◌≡◌, refl, sym, subst, false, Option, none, some, List, [], ◌∷◌, ◌==◌, inl, inr, arith, find,
  place, list_eq_iff, find-place, Bool-cases, if_true, if_false,
}
use v8app.Callbacks.{V8CppObjInfo, Infos, has_info, register_object_info}

-- An info stands under its own name, and under one name only.
pub record IsValid (infos : Infos) : Type 0 where
  pub own_name : (n : List ℕ) (i : V8CppObjInfo) → find n infos ≡ some i → i.type_name ≡ n
  pub one_name :
      (n m : List ℕ) (i j : V8CppObjInfo)
      → find n infos ≡ some i
      → find m infos ≡ some j
      → i.address ≡ j.address
      → n ≡ m

-- What is there stays.
pub record Keeps (infos infos' : Infos) : Type 0 where
  pub kept : (n : List ℕ) (i : V8CppObjInfo) → find n infos ≡ some i → find n infos' ≡ some i

place-Keeps :
    (name : List ℕ) (info : V8CppObjInfo) (infos : Infos)
    → find name infos ≡ none
    → Keeps infos (place name info infos)
place-Keeps name info infos e = record {
  kept = λ n i f. ground (arith, find-place name n info infos e, list_eq_iff name n);
}

has_info_not :
    (a : ℕ) (n : List ℕ) (i : V8CppObjInfo) (infos : Infos)
    → has_info a infos ≡ false
    → find n infos ≡ some i
    → (i.address == a) ≡ false
unfolding has_info
has_info_not a n i [] h f = cc
has_info_not a n i ((m, j) ∷ infos) h f = ground (arith, has_info_not a n i infos)

place-IsValid :
    (info : V8CppObjInfo) (infos : Infos)
    → has_info info.address infos ≡ false
    → find info.type_name infos ≡ none
    → IsValid infos
    → IsValid (place info.type_name info infos)
place-IsValid info infos new e v = record {
  own_name = λ n i f. ground (
    arith,
    find-place info.type_name n info infos e,
    list_eq_iff info.type_name n,
    v.own_name n i,
  );
  one_name = λ n m i j f g s. ground (
    arith,
    find-place info.type_name n info infos e,
    find-place info.type_name m info infos e,
    list_eq_iff info.type_name n,
    list_eq_iff info.type_name m,
    has_info_not info.address n i infos new,
    has_info_not info.address m j infos new,
    v.one_name n m i j,
  );
}

-- RegisterObjectInfo keeps each info under its own name and under one name only, and what was
-- registered under a name stays.
pub register_object_info-IsValid :
    (info : V8CppObjInfo) (infos : Infos)
    → IsValid infos
    → IsValid (register_object_info info infos) × Keeps infos (register_object_info info infos)
unfolding register_object_info
register_object_info-IsValid info infos v = elim (Bool-cases (has_info info.address infos)) [
  | inl old ↦ subst Both (sym (if_true _ _ _ old)) same
  | inr new ↦ subst Both (sym (if_false _ _ _ new)) (by_name _ refl new)
]
  where
    Both : Infos → Type 0
    Both infos' = IsValid infos' × Keeps infos infos'

    same : Both infos
    same = (v, record { kept = λ n i f. f })

    by_name :
        (o : Option V8CppObjInfo)
        → find info.type_name infos ≡ o
        → has_info info.address infos ≡ false
        → Both (elim o [ some other ↦ infos | none ↦ place info.type_name info infos ])
    by_name (some other) e new = same
    by_name none e new = (place-IsValid info infos new e v, place-Keeps info.type_name info infos e)
