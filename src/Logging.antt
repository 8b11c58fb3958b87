-- ===== src/Logging.antt =====
-- libs/core's log (include/Logging/Log.h, src/Logging/Log.cc): its static members are the record `Log`.
-- A sink keeps the messages that it was given; it may want what levels it likes, and does not change a
-- message. `now` is the time that `GenerateISO8601Time` prints, for UTC or not.
pub mod Key
pub mod Messages
pub mod Delivery
pub mod Sinks
pub mod History
mod Tests
use v8app.Base.{
  ℕ, ◌≡◌, Bool, true, false, not, ◌&&◌, ◌||◌, Option, none, some, List, [], ◌∷◌, ◌++◌, map, arith,
  leb, ◌==◌, list_eq, if◌then◌else◌, codes, find, emplace, erase,
}

abbrev pub Text : Type 0
Text = List ℕ

pub data LogLevel : Type 0 where
  fatal off error general warn debug trace : LogLevel

-- The value of the enumerator, plus one: `Fatal` is -1.
abbrev pub rank : LogLevel → ℕ
rank fatal = 0
rank off = 1
rank error = 2
rank general = 3
rank warn = 4
rank debug = 5
rank trace = 6

pub log_level_to_string : LogLevel → Text
log_level_to_string fatal = codes "Fatal"
log_level_to_string off = codes "Off"
log_level_to_string error = codes "Error"
log_level_to_string general = codes "General"
log_level_to_string warn = codes "Warn"
log_level_to_string debug = codes "Debug"
log_level_to_string trace = codes "Trace"

abbrev pub LogMessage : Type 0
LogMessage = List (Text × Text)

pub record Sink : Type 0 where
  pub name : Text
  pub wants_log_message : LogLevel → Bool
  pub received : List LogMessage
  pub closed : Bool

abbrev pub sink_message : LogMessage → Sink → Sink
sink_message message sink = record sink { received = sink.received ++ (message ∷ []) }

pub record Log : Type 0 where
  pub log_sinks : List (Text × Sink)
  pub log_level : LogLevel
  pub use_utc : Bool
  pub app_name : Text
  -- What was printed on `std::cerr`: the app name and the entries.
  pub cerr : List (Text × LogMessage)

pub new_log : Log
new_log = record {
  log_sinks = [];
  log_level = error;
  use_utc = true;
  app_name = codes "v8App";
  cerr = [];
}

pub set_app_name : Text → Log → Log
set_app_name name s = if list_eq name [] then s else record s { app_name = name }

pub set_log_level : LogLevel → Log → Log
set_log_level fatal s = s
set_log_level level s = record s { log_level = level }

unfoldable pub set_use_utc : Bool → Log → Log
set_use_utc utc s = record s { use_utc = utc }

-- What `InternalLog` adds to a message.
pub stamp : (Bool → Text) → Log → LogLevel → LogMessage → LogMessage
unfolding log_level_to_string
stamp now s level message =
    emplace Key.log_level (log_level_to_string level)
      (emplace Key.app_name s.app_name (emplace Key.time_stamp (now s.use_utc) message))

abbrev pub offer : LogLevel → LogMessage → Sink → Sink
offer level message sink =
    if not (sink.wants_log_message level) && not (rank level == 0)
    then sink
    else sink_message message sink

-- The loop over the sinks.
pub deliver : LogLevel → LogMessage → List (Text × Sink) → List (Text × Sink)
deliver level message [] = []
deliver level message ((key, sink) ∷ sinks) =
    (key, offer level message sink) ∷ deliver level message sinks

pub without_app_name : LogMessage → LogMessage
without_app_name [] = []
without_app_name ((key, value) ∷ message) =
    let rest = without_app_name message in
    if list_eq key Key.app_name then rest else (key, value) ∷ rest

abbrev pub is_empty : List (Text × Sink) → Bool
is_empty [] = true
is_empty (x ∷ xs) = false

-- The message is passed by reference: the caller sees what was added to it.
pub internal_log : (Bool → Text) → LogMessage → LogLevel → Log → LogMessage × Log
unfolding stamp deliver without_app_name
internal_log now message level s =
    let message' = stamp now s level message in
    let s' : Log = record s { log_sinks = deliver level message' s.log_sinks } in
    if is_empty s.log_sinks
    then (message', record s' { cerr = s.cerr ++ ((s.app_name, without_app_name message') ∷ []) })
    else (message', s')

-- `Error`, `General`, `Warn`, `Debug` and `Trace`, which test the level, and `Fatal`, which does not;
-- there is no method for `Off`.
pub log : (Bool → Text) → LogLevel → LogMessage → Log → LogMessage × Log
unfolding internal_log
log now fatal message s = internal_log now message fatal s
log now level message s =
    if leb (rank level) (rank (s.log_level)) then internal_log now message level s else (message, s)

pub log_text : (Bool → Text) → LogLevel → Text → Log → Log
unfolding log
log_text now level text s = (log now level ((Key.msg, text) ∷ []) s).1

-- The overloads that a place in the source is given to; `line` is printed already.
pub place_in : Text → Text → Text → LogMessage → LogMessage
place_in file function line message =
    emplace Key.line line (emplace Key.function function (emplace Key.file file message))

pub log_at : (Bool → Text) → LogLevel → LogMessage → Text → Text → Text → Log → LogMessage × Log
unfolding internal_log place_in
log_at now fatal message file function line s =
    internal_log now (place_in file function line message) fatal s
log_at now level message file function line s =
    if leb (rank level) (rank (s.log_level))
    then internal_log now (place_in file function line message) level s
    else (message, s)

pub log_text_at : (Bool → Text) → LogLevel → Text → Text → Text → Text → Log → Log
unfolding log_at
log_text_at now level text file function line s =
    (log_at now level ((Key.msg, text) ∷ []) file function line s).1

pub add_log_sink : (Bool → Text) → Sink → Log → Bool × Log
unfolding log
add_log_sink now sink s = elim (find (sink.name) s.log_sinks) [
  | some other ↦ (
    false,
    (log now warn
        ((Key.msg, codes "Sink with name:" ++ (sink.name ++ codes " already exists")) ∷ []) s).1,
  )
  | none ↦ (true, record s { log_sinks = emplace (sink.name) sink s.log_sinks })
]

pub remove_log_sink : Text → Log → Log
remove_log_sink name s = record s { log_sinks = erase name s.log_sinks }

pub get_log_sink : Text → Log → Option Sink
get_log_sink name s = find name s.log_sinks

abbrev pub close_all : List (Text × Sink) → List (Text × Sink)
close_all [] = []
close_all ((key, sink) ∷ sinks) = (key, record sink { closed = true }) ∷ close_all sinks

unfoldable pub shutdown : Log → Log
shutdown s = record s { log_sinks = close_all s.log_sinks }
