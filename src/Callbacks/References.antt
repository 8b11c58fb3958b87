-- ===== src/Callbacks/References.antt =====
-- The references for a snapshot under registrations.
use v8app.Base.{
  ℕ, ◌≡◌, refl, ap, ◌∙◌, Bool, true, false, not, List, [], ◌∷◌, ◌++◌, ◌==◌, ◌⊎◌, inl, inr, arith,
  ◌||◌, ◌&&◌, Bool-cases, sym, subst, append-nil, append_assoc, if◌then◌else◌,
}
use v8app.Callbacks.{
  CallbackRegistry, ends_with_null, pop_back, contains, get_references, add_reference, without_null,
  register, new_registry,
}

-- The calls: a registration of a function with its dispatcher and holder, and a look at the references.
pub data Call : Type 0 where
  registers : ℕ → ℕ → ℕ → Call
  looks : Call

unfoldable pub call : Call → CallbackRegistry → CallbackRegistry
unfolding register get_references
call (registers real dispatcher holder) s = register real dispatcher holder s
call looks s = record s { registry = get_references s.registry }

unfoldable pub run : List Call → CallbackRegistry → CallbackRegistry
unfolding call
run [] s = s
run (c ∷ cs) s = run cs (call c s)

unfoldable pub remove : ℕ → List ℕ → List ℕ
remove a [] = []
remove a (b ∷ r) = let rest = remove a r in if b == a then rest else b ∷ rest

-- The dispatchers, each where it is registered first.
unfoldable pub dispatchers : List Call → List ℕ
unfolding remove
dispatchers [] = []
dispatchers (registers real dispatcher holder ∷ cs) =
    dispatcher ∷ remove dispatcher (dispatchers cs)
dispatchers (looks ∷ cs) = dispatchers cs

-- The references with what the calls add to them.
added : List Call → List ℕ → List ℕ
unfolding add_reference
added [] seen = seen
added (registers real dispatcher holder ∷ cs) seen = added cs (add_reference dispatcher seen)
added (looks ∷ cs) seen = added cs seen

-- No dispatcher is null.
pub data AreFunctions : List Call → Type 0 where
  no_calls : AreFunctions []
  and_register :
      {real dispatcher holder : ℕ} {cs : List Call}
      → (dispatcher == 0) ≡ false
      → AreFunctions cs
      → AreFunctions (registers real dispatcher holder ∷ cs)
  and_look : {cs : List Call} → AreFunctions cs → AreFunctions (looks ∷ cs)

ends_with_null-append : (r : List ℕ) (a : ℕ) → ends_with_null (r ++ (a ∷ [])) ≡ (a == 0)
unfolding ends_with_null
ends_with_null-append [] a = refl
ends_with_null-append (b ∷ []) a = refl
ends_with_null-append (b ∷ c ∷ r) a = ends_with_null-append (c ∷ r) a

pop_back-append : (r : List ℕ) (a : ℕ) → pop_back (r ++ (a ∷ [])) ≡ r
unfolding pop_back
pop_back-append [] a = refl
pop_back-append (b ∷ []) a = refl
pop_back-append (b ∷ c ∷ r) a = ap (λ x. b ∷ x) (pop_back-append (c ∷ r) a)

add_reference_open :
    (a : ℕ) (r : List ℕ)
    → (a == 0) ≡ false
    → ends_with_null r ≡ false
    → ends_with_null (add_reference a r) ≡ false
unfolding add_reference
add_reference_open a r n h = elim (Bool-cases (contains a r)) [
  | inl old ↦ rw (old) h
  | inr new ↦ rw (new) (ends_with_null-append r a ∙ n)
]

-- The vector is the references, with or without a null pointer behind them.
Shows : List ℕ → List ℕ → Type 0
Shows r seen = (r ≡ seen) ⊎ (r ≡ seen ++ (0 ∷ []))

without_null-Shows :
    (r seen : List ℕ) → ends_with_null seen ≡ false → Shows r seen → without_null r ≡ seen
unfolding Shows
without_null-Shows r seen h (inl e) = rw (e, h) refl
without_null-Shows r seen h (inr e) = rw (e, ends_with_null-append seen 0) (pop_back-append seen 0)

get_references-Shows :
    (r seen : List ℕ)
    → ends_with_null seen ≡ false
    → Shows r seen
    → get_references r ≡ seen ++ (0 ∷ [])
unfolding Shows get_references
get_references-Shows r seen h (inl e) = rw (e, h) refl
get_references-Shows r seen h (inr e) = rw (e, ends_with_null-append seen 0) refl

shown :
    (cs : List Call) (s : CallbackRegistry) (seen : List ℕ)
    → AreFunctions cs
    → ends_with_null seen ≡ false
    → (s.registry ≡ seen) ⊎ (s.registry ≡ seen ++ (0 ∷ []))
    → get_references (run cs s).registry ≡ added cs seen ++ (0 ∷ [])
unfolding run added call register Shows
shown [] s seen f h e = get_references-Shows s.registry seen h e
shown (registers real d holder ∷ cs) s seen (and_register n f) h e =
    shown cs (register real d holder s) (add_reference d seen) f (add_reference_open d seen n h)
      (inl (ap (add_reference d) (without_null-Shows s.registry seen h e)))
shown (looks ∷ cs) s seen (and_look f) h e =
    shown cs (record s { registry = get_references s.registry }) seen f h
      (inr (get_references-Shows s.registry seen h e))

unfoldable pub is_distinct : List ℕ → Bool
is_distinct [] = true
is_distinct (a ∷ r) = not (contains a r) && is_distinct r

contains-append : (b : ℕ) (r : List ℕ) (a : ℕ) → contains b (r ++ (a ∷ [])) ≡ contains b r || a == b
unfolding contains
contains-append b [] a = ground arith
contains-append b (c ∷ r) a = ground (arith, contains-append b r a)

is_distinct-append :
    (r : List ℕ) (a : ℕ)
    → contains a r ≡ false
    → is_distinct r ≡ true
    → is_distinct (r ++ (a ∷ [])) ≡ true
unfolding is_distinct contains
is_distinct-append [] a n d = refl
is_distinct-append (b ∷ r) a n d = ground (arith, contains-append b r a, is_distinct-append r a)

is_distinct-added :
    (cs : List Call) (seen : List ℕ) → is_distinct seen ≡ true → is_distinct (added cs seen) ≡ true
unfolding added add_reference
is_distinct-added [] seen d = d
is_distinct-added (looks ∷ cs) seen d = is_distinct-added cs seen d
is_distinct-added (registers real a holder ∷ cs) seen d =
    is_distinct-added cs (add_reference a seen) (elim (Bool-cases (contains a seen)) [
      | inl old ↦ rw (old) d
      | inr new ↦ rw (new) (is_distinct-append seen a new d)
    ])

-- What is not among the given ones.
without : List ℕ → List ℕ → List ℕ
without seen [] = []
without seen (b ∷ r) = let rest = without seen r in if contains b seen then rest else b ∷ rest

without_none : (r : List ℕ) → without [] r ≡ r
unfolding without contains
without_none [] = refl
without_none (b ∷ r) = ap (λ l. b ∷ l) (without_none r)

without-remove_old :
    (a : ℕ) (seen r : List ℕ) → contains a seen ≡ true → without seen (remove a r) ≡ without seen r
unfolding without remove
without-remove_old a seen [] h = refl
without-remove_old a seen (b ∷ r) h = ground (arith, without-remove_old a seen r h)

without-remove_new :
    (a : ℕ) (seen r : List ℕ) → without (seen ++ (a ∷ [])) r ≡ without seen (remove a r)
unfolding without remove
without-remove_new a seen [] = refl
without-remove_new a seen (b ∷ r) =
    ground (arith, without-remove_new a seen r, contains-append b seen a)

add_reference-without :
    (a : ℕ) (seen r : List ℕ)
    → add_reference a seen ++ without (add_reference a seen) r
      ≡ seen ++ without seen (a ∷ remove a r)
unfolding add_reference without
add_reference-without a seen r = elim (Bool-cases (contains a seen)) [
  | inl old ↦ rw (old, without-remove_old a seen r old) refl
  | inr new ↦
      rw (new, without-remove_new a seen r) (append_assoc seen (a ∷ []) (without seen (remove a r)))
]

added-dispatchers :
    (cs : List Call) (seen : List ℕ) → added cs seen ≡ seen ++ without seen (dispatchers cs)
unfolding added dispatchers without
added-dispatchers [] seen = sym (append-nil seen)
added-dispatchers (registers real a holder ∷ cs) seen =
    added-dispatchers cs (add_reference a seen) ∙ add_reference-without a seen (dispatchers cs)
added-dispatchers (looks ∷ cs) seen = added-dispatchers cs seen

-- After any registrations and looks, where no dispatcher is null, GetReferences has each dispatcher that
-- was registered once, in the order of their first registrations, and one null pointer, which stands
-- last.
pub get_references-run :
    (cs : List Call)
    → AreFunctions cs
    → (get_references (run cs new_registry).registry ≡ dispatchers cs ++ (0 ∷ []))
      × (is_distinct (dispatchers cs) ≡ true)
unfolding new_registry is_distinct ends_with_null
get_references-run cs f =
    let e = added-dispatchers cs [] ∙ without_none (dispatchers cs) in
    (
      shown cs new_registry [] f refl (inl refl) ∙ ap (λ l. l ++ (0 ∷ [])) e,
      subst (λ l. is_distinct l ≡ true) e (is_distinct-added cs [] refl),
    )
