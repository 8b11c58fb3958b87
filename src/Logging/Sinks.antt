-- ===== src/Logging/Sinks.antt =====
-- The registered sinks: adding, removing and looking up.
use v8app.Base.{
  ◌≡◌, ◌≢◌, refl, Bool, true, false, none, some, List, [], ◌∷◌, ◌++◌, arith, list_eq, list_eq_iff,
  if◌then◌else◌, find, place, erase, find-emplace, codes, ◌∙◌, ◌⊎◌, inl, inr, Option-cases,
}
use v8app.Logging.{
  Text, LogLevel, fatal, warn, LogMessage, Log, Sink, offer, deliver, close_all, log, add_log_sink,
  remove_log_sink, get_log_sink,
}
use v8app.Logging.Key

-- No key occurs twice, each sink stands under its name, and the level is one that can be set.
unfoldable pub Distinct : List (Text × Sink) → Type 0
Distinct [] = Unit
Distinct ((key, sink) ∷ sinks) = (find key sinks ≡ none) × (sink.name ≡ key) × Distinct sinks

pub record IsValid (s : Log) : Type 0 where
  pub sinks : Distinct s.log_sinks
  pub level : s.log_level ≢ fatal
  pub named : s.app_name ≢ []

find-deliver_absent :
    (level : LogLevel) (message : LogMessage) (key : Text) (sinks : List (Text × Sink))
    → find key sinks ≡ none
    → find key (deliver level message sinks) ≡ none
unfolding deliver
find-deliver_absent level message key [] h = refl
find-deliver_absent level message key ((k, other) ∷ sinks) h =
    ground (arith, find-deliver_absent level message key sinks)

offer-name :
    (level : LogLevel) (message : LogMessage) (sink : Sink)
    → (offer level message sink).name ≡ sink.name
offer-name level message sink = ground arith

pub deliver-Distinct :
    (level : LogLevel) (message : LogMessage) (sinks : List (Text × Sink))
    → Distinct sinks
    → Distinct (deliver level message sinks)
unfolding deliver Distinct
deliver-Distinct level message [] d = tt
deliver-Distinct level message ((k, sink) ∷ sinks) d = (
  find-deliver_absent level message k sinks d.0,
  offer-name level message sink ∙ d.1,
  deliver-Distinct level message sinks d.2,
)

find-close_all_absent :
    (key : Text) (sinks : List (Text × Sink))
    → find key sinks ≡ none
    → find key (close_all sinks) ≡ none
find-close_all_absent key [] h = refl
find-close_all_absent key ((k, sink) ∷ sinks) h = ground (arith, find-close_all_absent key sinks)

pub close_all-Distinct : (sinks : List (Text × Sink)) → Distinct sinks → Distinct (close_all sinks)
unfolding Distinct
close_all-Distinct [] d = tt
close_all-Distinct ((k, sink) ∷ sinks) d =
    (find-close_all_absent k sinks d.0, d.1, close_all-Distinct sinks d.2)

find-place_other :
    (k j : Text) (a : Sink) (m : List (Text × Sink))
    → list_eq k j ≡ false
    → find j m ≡ none
    → find j (place k a m) ≡ none
find-place_other k j a [] e h = ground arith
find-place_other k j a ((i, b) ∷ m) e h = ground (arith, find-place_other k j a m e)

pub place-Distinct :
    (k : Text) (a : Sink) (m : List (Text × Sink))
    → a.name ≡ k
    → find k m ≡ none
    → Distinct m
    → Distinct (place k a m)
unfolding Distinct
place-Distinct k a [] e h d = (refl, e, tt)
place-Distinct k a ((i, b) ∷ m) e h d =
    ground
      (arith, list_eq_iff i k, list_eq_iff k i, find-place_other k i a m, place-Distinct k a m e)

find-erase_other :
    (k j : Text) (m : List (Text × Sink)) → find j m ≡ none → find j (erase k m) ≡ none
find-erase_other k j [] h = refl
find-erase_other k j ((i, b) ∷ m) h = ground (arith, find-erase_other k j m)

pub erase-Distinct : (k : Text) (m : List (Text × Sink)) → Distinct m → Distinct (erase k m)
unfolding Distinct
erase-Distinct k [] d = tt
erase-Distinct k ((i, b) ∷ m) d = ground (arith, find-erase_other k i m, erase-Distinct k m)

-- A lookup after an erasure.
find-erase :
    (k j : Text) (m : List (Text × Sink))
    → Distinct m
    → find j (erase k m) ≡ (if list_eq k j then none else find j m)
unfolding Distinct
find-erase k j [] d = ground arith
find-erase k j ((i, b) ∷ m) d =
    ground (arith, list_eq_iff i k, list_eq_iff i j, list_eq_iff k j, find-erase k j m)

-- In a valid log a removed sink is not found any more, and every other is found as before.
pub remove_log_sink_lem :
    (s : Log) (name other : Text)
    → IsValid s
    → get_log_sink other (remove_log_sink name s)
      ≡ (if list_eq name other then none else get_log_sink other s)
unfolding get_log_sink remove_log_sink
remove_log_sink_lem s name other v = find-erase name other s.log_sinks v.sinks

-- The warning about a sink whose name is in use.
abbrev pub already_exists : Sink → LogMessage
already_exists sink =
    (Key.msg, codes "Sink with name:" ++ (sink.name ++ codes " already exists")) ∷ []

-- `AddLogSink` either registers a sink whose name is free, which is then found under its name with every
-- other sink as before, or, with the name in use, returns false and only logs a warning.
pub add_log_sink_lem :
    (now : Bool → Text) (sink : Sink) (s : Log) (other : Text)
    → ((get_log_sink (sink.name) s ≡ none)
        × ((add_log_sink now sink s).0 ≡ true)
        × (get_log_sink other (add_log_sink now sink s).1
            ≡ (if list_eq (sink.name) other then some sink else get_log_sink other s)))
      ⊎ ((add_log_sink now sink s).0 ≡ false)
        × ((add_log_sink now sink s).1 ≡ (log now warn (already_exists sink) s).1)
unfolding get_log_sink add_log_sink
add_log_sink_lem now sink s other = elim (Option-cases (find (sink.name) s.log_sinks)) [
  | inl free ↦ inl (
    free,
    ground arith,
    ground (arith, list_eq_iff (sink.name) other, find-emplace (sink.name) other sink s.log_sinks),
  )
  | inr (old, taken) ↦ inr (ground arith, ground arith)
]
