-- ===== src/Modules/Table.antt =====
-- `m_ModuleMap` of JSContextModules: a `std::map` from the path and the type of a module.
use v8app.Base.{
  ℕ, ◌≡◌, refl, ◌∙◌, inl, inr, Bool-cases, Option-cases, Bool, true, false, ◌&&◌, ◌||◌, Option,
  none, some, List, [], ◌∷◌, arith, ltb, ◌==◌, list_eq, list_eq_iff, text_ltb, if◌then◌else◌,
}
use v8app.Modules.{JsModuleType, type_code}

pub record Key : Type 0 where
  pub path : List ℕ
  pub type : JsModuleType

unfoldable pub key_eq : Key → Key → Bool
unfolding type_code
key_eq j k = list_eq j.path k.path && type_code j.type == type_code k.type

-- `operator<` of `std::pair`.
unfoldable pub key_ltb : Key → Key → Bool
unfolding type_code
key_ltb j k =
    text_ltb j.path k.path || list_eq j.path k.path && ltb (type_code j.type) (type_code k.type)

module _ {A : Type 0} where
  unfoldable pub lookup : Key → List (Key × A) → Option A
  unfolding key_eq
  lookup k [] = none
  lookup k ((j, a) ∷ m) = if key_eq j k then some a else lookup k m

  unfoldable pub place : Key → A → List (Key × A) → List (Key × A)
  unfolding key_ltb
  place k a [] = (k, a) ∷ []
  place k a ((j, b) ∷ m) = if key_ltb k j then (k, a) ∷ (j, b) ∷ m else (j, b) ∷ place k a m

  -- `insert`, with whether the key is new.
  unfoldable pub insert : Key → A → List (Key × A) → Bool × List (Key × A)
  unfolding lookup place
  insert k a m = elim (lookup k m) [ some b ↦ (false, m) | none ↦ (true, place k a m) ]

  -- `GetModuleBySpecifier`: the first module with the path, of whatever type.
  unfoldable pub get_module_by_specifier : List ℕ → List (Key × A) → Option A
  get_module_by_specifier p [] = none
  get_module_by_specifier p ((j, a) ∷ m) =
      if list_eq j.path p then some a else get_module_by_specifier p m

  unfoldable pub has_path : List ℕ → List (Key × A) → Bool
  has_path p [] = false
  has_path p ((j, a) ∷ m) = list_eq j.path p || has_path p m

module _ {A : Type 0} where
  pub lookup-place :
      (k j : Key) (a : A) (m : List (Key × A))
      → lookup k m ≡ none
      → lookup j (place k a m) ≡ (if key_eq k j then some a else lookup j m)
  unfolding lookup place
  lookup-place k j a [] h = refl
  lookup-place k j a ((i, b) ∷ m) h =
      unfold key_eq in
      unfold key_ltb in
      ground (
        arith,
        list_eq_iff i.path k.path,
        list_eq_iff i.path j.path,
        list_eq_iff k.path j.path,
        lookup-place k j a m,
      )

  lookup_cong : (j k : Key) (m : List (Key × A)) → key_eq j k ≡ true → lookup j m ≡ lookup k m
  unfolding lookup key_eq
  lookup_cong j k [] e = refl
  lookup_cong j k ((i, b) ∷ m) e = ground (
    arith,
    list_eq_iff i.path k.path,
    list_eq_iff i.path j.path,
    list_eq_iff j.path k.path,
    lookup_cong j k m,
  )

  -- An entry that is there stays when another comes in.
  pub lookup-place_new :
      (k j : Key) (i a : A) (m : List (Key × A))
      → lookup k m ≡ some i
      → lookup j m ≡ none
      → lookup k (place j a m) ≡ some i
  lookup-place_new k j i a m here new = elim (Bool-cases (key_eq j k)) [
    | inl e ↦ let one = lookup_cong j k m e in cc
    | inr e ↦ lookup-place j k a m new ∙ rw e here
  ]

  pub has_path-place :
      (k : Key) (p : List ℕ) (a : A) (m : List (Key × A))
      → has_path p (place k a m) ≡ (list_eq k.path p || has_path p m)
  unfolding has_path place
  has_path-place k p a [] = refl
  has_path-place k p a ((i, b) ∷ m) = elim (Bool-cases (key_ltb k i)) [
    | inl e ↦ rw e refl
    | inr e ↦
        rw (e, has_path-place k p a m)
          (swap_or (list_eq i.path p) (list_eq k.path p) (has_path p m))
  ]
    where
      swap_or : (x y z : Bool) → (x || (y || z)) ≡ (y || (x || z))
      swap_or true true z = refl
      swap_or true false z = refl
      swap_or false y z = refl

  -- An entry's path is there.
  pub has_path-lookup :
      (k : Key) (a : A) (m : List (Key × A)) → lookup k m ≡ some a → has_path k.path m ≡ true
  unfolding has_path lookup
  has_path-lookup k a [] h = cc
  has_path-lookup k a ((i, b) ∷ m) h = ground (arith, has_path-lookup k a m)

  pub has_path-get :
      (p : List ℕ) (a : A) (m : List (Key × A))
      → get_module_by_specifier p m ≡ some a
      → has_path p m ≡ true
  unfolding has_path get_module_by_specifier
  has_path-get p a [] h = cc
  has_path-get p a ((i, b) ∷ m) h = ground (arith, has_path-get p a m)

  pub get-none :
      (p : List ℕ) (m : List (Key × A)) → get_module_by_specifier p m ≡ none → has_path p m ≡ false
  unfolding has_path get_module_by_specifier
  get-none p [] h = refl
  get-none p ((i, b) ∷ m) h = ground (arith, get-none p m)

  pub get-absent :
      (p : List ℕ) (m : List (Key × A)) → has_path p m ≡ false → get_module_by_specifier p m ≡ none
  unfolding has_path get_module_by_specifier
  get-absent p [] h = refl
  get-absent p ((i, b) ∷ m) h = ground (arith, get-absent p m)

  pub get-present :
      (p : List ℕ) (m : List (Key × A))
      → has_path p m ≡ true
      → (a : A) × (get_module_by_specifier p m ≡ some a)
  get-present p m h = elim (Option-cases (get_module_by_specifier p m)) [
    | inl e ↦ let absent = get-none p m e in absurd (cc)
    | inr found ↦ found
  ]

  pub insert_new :
      (k : Key) (a : A) (m : List (Key × A))
      → lookup k m ≡ none
      → insert k a m ≡ (true, place k a m)
  unfolding insert
  insert_new k a m e = rw (e, insert) refl

  pub insert_old :
      (k : Key) (a b : A) (m : List (Key × A)) → lookup k m ≡ some b → insert k a m ≡ (false, m)
  unfolding insert
  insert_old k a b m e = rw (e, insert) refl
