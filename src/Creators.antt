-- ===== src/Creators.antt =====
-- JSAppCreatorRegistry (libs/jsRuntime/include/JSAppCreatorRegistry.h, src/JSAppCreatorRegistry.cc): the
-- creators of applications by the types of the applications. A creator is the number of a function.
mod Tests
use v8app.Base.{
  ℕ, ◌≡◌, refl, Option, none, some, List, [], ◌∷◌, ◌>>=◌, if◌then◌else◌, arith, find, place,
  find-place, list_eq, list_eq_iff, Bool, true, false, inl, inr,
}

abbrev pub Creators : Type 0
Creators = List (List ℕ × ℕ)

-- A type that is there keeps its creator, with a warning if the other one is new.
unfoldable pub register_creator : List ℕ → ℕ → Creators → Creators
register_creator type creator creators = elim (find type creators) [
  | some old ↦ creators
  | none ↦ place type creator creators
]

-- `CreateApp`, where `call` calls a creator; `none` is a null pointer.
unfoldable pub create_app : {App : Type 0} → (ℕ → App) → List ℕ → Creators → Option App
create_app call type creators = find type creators >>= λ creator. some (call creator)

unfoldable pub register_all : Creators → Creators → Creators
unfolding register_creator
register_all [] creators = creators
register_all ((type, creator) ∷ rest) creators =
    register_all rest (register_creator type creator creators)

register_creator_keeps :
    (type other : List ℕ) (creator c : ℕ) (creators : Creators)
    → find other creators ≡ some c
    → find other (register_creator type creator creators) ≡ some c
unfolding register_creator
register_creator_keeps type other creator c creators e =
    ground (arith, find-place type other creator creators, list_eq_iff type other)

register_all_keeps :
    (new : Creators) (type : List ℕ) (c : ℕ) (creators : Creators)
    → find type creators ≡ some c
    → find type (register_all new creators) ≡ some c
unfolding register_all
register_all_keeps [] type c creators e = e
register_all_keeps ((t, d) ∷ new) type c creators e =
    register_all_keeps new type c (register_creator t d creators)
      (register_creator_keeps t type d c creators e)

-- After a registration, and any others behind it, CreateApp calls the first creator of the type.
pub create_app-register_creator :
    {App : Type 0}
    → (call : ℕ → App) → (type : List ℕ) (creator : ℕ) (new creators : Creators)
    → create_app call type (register_all new (register_creator type creator creators))
      ≡ elim (find type creators) [ some old ↦ some (call old) | none ↦ some (call creator) ]
unfolding create_app register_creator
create_app-register_creator call type creator new creators = go _ refl
  where
    go :
        (o : Option ℕ)
        → find type creators ≡ o
        → create_app call type (register_all new (register_creator type creator creators))
          ≡ elim o [ some old ↦ some (call old) | none ↦ some (call creator) ]
    go none e =
        rw
          (register_all_keeps new type creator (register_creator type creator creators)
            (find_new e))
          refl
      where
        find_new :
            find type creators ≡ none
            → find type (register_creator type creator creators) ≡ some creator
        find_new n = ground (arith, find-place type type creator creators n, list_eq_iff type type)
    go (some old) e =
        rw
          (register_all_keeps new type old (register_creator type creator creators)
            (register_creator_keeps type type creator old creators e))
          refl
