-- ===== src/Logging/Tests.antt =====
-- Runs of the log, and its theorems at concrete inputs.
use v8app.Base.{
  ◌≡◌, refl, Bool, true, false, ◌&&◌, some, List, [], ◌∷◌, ◌==◌, if◌then◌else◌, find, codes,
}
use v8app.Logging.{
  Text, fatal, error, general, rank, LogMessage, Log, Sink, sink_message, stamp, log, internal_log,
  warn, deliver, log_level_to_string, new_log,
}
use v8app.Logging.Key
use v8app.Logging.Delivery.{passes, takes, log-delivers}
use v8app.Logging.Sinks.{IsValid, Distinct}
use v8app.Logging.History.{
  Call, run, adds, logs, sets_level, removes, uses_utc, logs_text_at, shuts_down, run-IsValid,
}

abbrev noon : Bool → Text
noon utc = codes "12:00"

-- A sink that wants errors.
abbrev file_sink : Sink
file_sink = record {
  name = codes "file";
  wants_log_message = λ level. rank level == 2;
  received = [];
  closed = false;
}

abbrev one_sink : Log
one_sink = record {
  log_sinks = (codes "file", file_sink) ∷ [];
  log_level = general;
  use_utc = true;
  app_name = codes "app";
  cerr = [];
}

abbrev oops : LogMessage
oops = (Key.msg, codes "oops") ∷ []

error_test :
    (log noon error oops one_sink).1.log_sinks
    ≡ (
      codes "file",
      record file_sink {
        received =
            ((Key.app_name, codes "app")
              ∷ (Key.log_level, codes "Error")
              ∷ (Key.msg, codes "oops")
              ∷ (Key.time_stamp, codes "12:00")
              ∷ [])
            ∷ [];
      },
    )
      ∷ []
unfolding log internal_log deliver stamp log_level_to_string
error_test = refl

general_test : (log noon general oops one_sink).1 ≡ one_sink
unfolding log internal_log deliver
general_test = refl

log-delivers_example :
    find (codes "file") (log noon fatal oops one_sink).1.log_sinks
    ≡ some (
        if passes fatal one_sink && takes fatal file_sink
        then sink_message (stamp noon one_sink fatal oops) file_sink
        else file_sink)
log-delivers_example = log-delivers noon fatal oops one_sink (codes "file") file_sink refl

one_sink-IsValid : IsValid one_sink
unfolding Distinct
one_sink-IsValid = record { sinks = (refl, refl, tt); level = λ e. cc; named = λ e. cc }

abbrev calls : List Call
calls =
    sets_level fatal
    ∷ adds file_sink
    ∷ adds file_sink
    ∷ uses_utc false
    ∷ logs error oops
    ∷ logs_text_at warn (codes "late") (codes "a.cc") (codes "f") (codes "12")
    ∷ shuts_down
    ∷ removes (codes "file")
    ∷ []

run-IsValid_example : IsValid (run noon calls new_log)
run-IsValid_example = run-IsValid noon calls
