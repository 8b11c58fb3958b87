-- ===== src/Callbacks/Tests.antt =====
-- Registrations of functions, namespaces and infos, and the theorem at concrete calls.
use v8app.Base.{ℕ, ◌≡◌, refl, List, [], ◌∷◌, ◌++◌, codes, some, true}
use v8app.Callbacks.{
  new_registry, get_references, find_holder, add_namespace_setup_function,
  run_namespace_setup_functions,
}
use v8app.Callbacks.References.{
  Call, registers, looks, run, dispatchers, AreFunctions, no_calls, and_register, and_look,
  is_distinct, get_references-run,
}

-- Two functions of one signature, a look, another signature, and two looks.
abbrev calls : List Call
calls =
    registers 100 7 1
    ∷ registers 101 7 2
    ∷ looks
    ∷ registers 102 8 3
    ∷ registers 100 7 4
    ∷ looks
    ∷ looks
    ∷ []

references_after : (run calls new_registry).registry ≡ 7 ∷ 8 ∷ 0 ∷ []
unfolding run new_registry
references_after = refl

first_holder_stays : find_holder 100 (run calls new_registry).callback_holders ≡ some 1
unfolding run new_registry find_holder
first_holder_stays = refl

abbrev setups : List (List ℕ × List ℕ)
setups =
    add_namespace_setup_function 2 (codes "test" ∷ codes "global" ∷ [])
      (add_namespace_setup_function 1 [] [])

namespaces :
    (run_namespace_setup_functions (codes "test") setups ≡ 1 ∷ 2 ∷ 2 ∷ [])
    × (run_namespace_setup_functions (codes "global") setups ≡ 1 ∷ 2 ∷ [])
    × (run_namespace_setup_functions [] setups ≡ 1 ∷ 2 ∷ [])
unfolding run_namespace_setup_functions add_namespace_setup_function
namespaces = (refl, refl, refl)

calls-AreFunctions : AreFunctions calls
calls-AreFunctions = and_register refl (
    and_register refl
      (and_look (and_register refl (and_register refl (and_look (and_look no_calls))))))

get_references-run_example :
    (get_references (run calls new_registry).registry ≡ dispatchers calls ++ (0 ∷ []))
    × (is_distinct (dispatchers calls) ≡ true)
get_references-run_example = get_references-run calls calls-AreFunctions
