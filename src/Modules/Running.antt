-- ===== src/Modules/Running.antt =====
-- JSContextModules::InstantiateModule and RunModule (JSContextModules.cc), over what V8 answers for a module.
mod Tests
use v8app.Base.{ℕ, Bool, true, false, Option, none, some, if◌then◌else◌}
use v8app.Modules.Tree.{Info}

unfoldable pub instantiate_own : (ℕ → Bool) → Option ℕ → Bool
instantiate_own instantiate none = false
instantiate_own instantiate (some m) = instantiate m

-- `InstantiateModule`; `none` is a null pointer.
unfoldable pub instantiate_module : (ℕ → Bool) → Option Info → Bool
unfolding instantiate_own
instantiate_module instantiate none = false
instantiate_module instantiate (some info) = instantiate_own instantiate (info.v8_module)

-- `thrown` is an error for the caller, `ended` the end of the program, where V8 has no value.
pub data Run : Type 0 where
  thrown ended : Run
  value : ℕ → Run

-- What V8 answers: its value, if there is one, and whether an exception was caught.
unfoldable pub checked : Option ℕ → Bool → Run
checked none caught = ended
checked (some v) caught = if caught then thrown else value v

unfoldable pub run_own : (ℕ → Option ℕ × Bool) → Option ℕ → Run
unfolding checked
run_own evaluate none = thrown
run_own evaluate (some m) = let x = evaluate m in checked x.0 x.1

-- `RunModule`
unfoldable pub run_module : (ℕ → Option ℕ × Bool) → Option Info → Run
unfolding run_own
run_module evaluate none = thrown
run_module evaluate (some info) = run_own evaluate (info.v8_module)
