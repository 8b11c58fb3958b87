-- ===== src/Logging/History.antt =====
-- What holds of the log over any history of calls.
use v8app.Base.{
  ◌≡◌, ◌≢◌, refl, Bool, List, [], ◌∷◌, arith, list_eq_iff, find, emplace, inl, inr, Option-cases,
  subst, sym,
}
use v8app.Logging.{
  Text, LogLevel, fatal, off, error, general, warn, debug, trace, LogMessage, Log, Sink, stamp,
  internal_log, log, new_log, set_app_name, set_log_level, add_log_sink, remove_log_sink,
  set_use_utc, log_text, log_at, log_text_at, place_in, shutdown,
}
use v8app.Logging.Sinks.{
  Distinct, IsValid, already_exists, deliver-Distinct, close_all-Distinct, place-Distinct,
  erase-Distinct,
}
use v8app.Logging.Delivery.{log_cases, log_at_cases}

-- The calls of the methods of `Log` that change it.
pub data Call : Type 0 where
  sets_name : Text → Call
  sets_level : LogLevel → Call
  uses_utc : Bool → Call
  adds : Sink → Call
  removes : Text → Call
  logs : LogLevel → LogMessage → Call
  logs_text : LogLevel → Text → Call
  logs_at : LogLevel → LogMessage → Text → Text → Text → Call
  logs_text_at : LogLevel → Text → Text → Text → Text → Call
  shuts_down : Call

pub call : (Bool → Text) → Call → Log → Log
call now (sets_name name) s = set_app_name name s
call now (sets_level level) s = set_log_level level s
call now (uses_utc utc) s = set_use_utc utc s
call now (adds sink) s = (add_log_sink now sink s).1
call now (removes name) s = remove_log_sink name s
call now (logs level message) s = (log now level message s).1
call now (logs_text level text) s = log_text now level text s
call now (logs_at level message file function line) s =
    (log_at now level message file function line s).1
call now (logs_text_at level text file function line) s =
    log_text_at now level text file function line s
call now shuts_down s = shutdown s

pub run : (Bool → Text) → List Call → Log → Log
unfolding call
run now [] s = s
run now (c ∷ cs) s = run now cs (call now c s)

set_level-level :
    (level : LogLevel) (s : Log) → s.log_level ≢ fatal → (set_log_level level s).log_level ≢ fatal
unfolding set_log_level
set_level-level fatal s h = h
set_level-level off s h = λ e. cc
set_level-level error s h = λ e. cc
set_level-level general s h = λ e. cc
set_level-level warn s h = λ e. cc
set_level-level debug s h = λ e. cc
set_level-level trace s h = λ e. cc

set_level-rest :
    (level : LogLevel) (s : Log)
    → ((set_log_level level s).log_sinks ≡ s.log_sinks)
      × ((set_log_level level s).app_name ≡ s.app_name)
unfolding set_log_level
set_level-rest fatal s = (refl, refl)
set_level-rest off s = (refl, refl)
set_level-rest error s = (refl, refl)
set_level-rest general s = (refl, refl)
set_level-rest warn s = (refl, refl)
set_level-rest debug s = (refl, refl)
set_level-rest trace s = (refl, refl)

internal_log-IsValid :
    (now : Bool → Text) (level : LogLevel) (message : LogMessage) (s : Log)
    → IsValid s
    → IsValid (internal_log now message level s).1
unfolding internal_log
internal_log-IsValid now level message s v =
    let d = deliver-Distinct level (stamp now s level message) s.log_sinks v.sinks in
    ground (arith, d, v.level, v.named)

log-IsValid :
    (now : Bool → Text) (level : LogLevel) (message : LogMessage) (s : Log)
    → IsValid s
    → IsValid (log now level message s).1
log-IsValid now level message s v =
    let i = internal_log-IsValid now level message s v in
    let e = log_cases now level message s in ground (arith, e, i, v)

log_at-IsValid :
    (now : Bool → Text) (level : LogLevel) (message : LogMessage) (file function line : Text)
    (s : Log)
    → IsValid s
    → IsValid (log_at now level message file function line s).1
log_at-IsValid now level message file function line s v =
    let i = internal_log-IsValid now level (place_in file function line message) s v in
    let e = log_at_cases now level message file function line s in ground (arith, e, i, v)

add-IsValid :
    (now : Bool → Text) (sink : Sink) (s : Log) → IsValid s → IsValid (add_log_sink now sink s).1
unfolding add_log_sink
add-IsValid now sink s v = elim (Option-cases (find (sink.name) s.log_sinks)) [
  | inl free ↦
      rw (free, add_log_sink)
        (record {
          sinks =
              rw (free, emplace) (place-Distinct (sink.name) sink s.log_sinks refl free v.sinks);
          level = v.level;
          named = v.named;
        })
  | inr (old, taken) ↦ rw (taken, add_log_sink) (log-IsValid now warn (already_exists sink) s v)
]

call-IsValid : (now : Bool → Text) (c : Call) (s : Log) → IsValid s → IsValid (call now c s)
unfolding call set_app_name remove_log_sink set_use_utc log_text log_text_at shutdown
call-IsValid now (sets_name name) s v =
    ground (arith, v.sinks, v.level, v.named, list_eq_iff name [])
call-IsValid now (sets_level level) s v = record {
  sinks = subst (λ m. Distinct m) (sym (set_level-rest level s).0) v.sinks;
  level = set_level-level level s v.level;
  named = subst (λ m. m ≢ []) (sym (set_level-rest level s).1) v.named;
}
call-IsValid now (adds sink) s v = add-IsValid now sink s v
call-IsValid now (removes name) s v = record {
  sinks = erase-Distinct name s.log_sinks v.sinks;
  level = v.level;
  named = v.named;
}
call-IsValid now (uses_utc utc) s v = record { sinks = v.sinks; level = v.level; named = v.named }
call-IsValid now (logs level message) s v = log-IsValid now level message s v
call-IsValid now (logs_text level text) s v = log-IsValid now level _ s v
call-IsValid now (logs_at level message file function line) s v =
    log_at-IsValid now level message file function line s v
call-IsValid now (logs_text_at level text file function line) s v =
    log_at-IsValid now level _ file function line s v
call-IsValid now shuts_down s v = record {
  sinks = close_all-Distinct s.log_sinks v.sinks;
  level = v.level;
  named = v.named;
}

new_log-IsValid : IsValid new_log
unfolding new_log Distinct
new_log-IsValid = record { sinks = tt; level = λ e. cc; named = λ e. cc }

run_keeps : (now : Bool → Text) (cs : List Call) (s : Log) → IsValid s → IsValid (run now cs s)
unfolding run
run_keeps now [] s v = v
run_keeps now (c ∷ cs) s v = run_keeps now cs (call now c s) (call-IsValid now c s v)

-- After any calls of the methods of Log, from the log that the program starts with, and with no change
-- of a sink's name behind its back, no two sinks are registered under one name, each stands under its own,
-- the level is never `Fatal` and the app name never empty.
pub run-IsValid : (now : Bool → Text) (cs : List Call) → IsValid (run now cs new_log)
run-IsValid now cs = run_keeps now cs new_log new_log-IsValid
