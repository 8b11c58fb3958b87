-- ===== src/Modules/Running/Tests.antt =====
-- Modules that are instantiated and run.
use v8app.Base.{ℕ, ◌≡◌, refl, true, false, Option, none, some}
use v8app.Modules.Info.{new_module_info}
use v8app.Modules.Tree.{Info}
use v8app.Modules.Running.{thrown, ended, value, instantiate_module, run_module}

abbrev with_module : Option ℕ → Info
with_module m = record new_module_info { v8_module = m }

refused :
    (instantiate_module (λ m. true) none ≡ false)
    × (instantiate_module (λ m. true) (some (with_module none)) ≡ false)
    × (run_module (λ m. (some 1, false)) (some (with_module none)) ≡ thrown)
unfolding instantiate_module run_module new_module_info
refused = (refl, refl, refl)

runs :
    (run_module (λ m. (some m, false)) (some (with_module (some 4))) ≡ value 4)
    × (run_module (λ m. (some m, true)) (some (with_module (some 4))) ≡ thrown)
    × (run_module (λ m. (none, true)) (some (with_module (some 4))) ≡ ended)
unfolding run_module new_module_info
runs = (refl, refl, refl)
