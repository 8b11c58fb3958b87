-- ===== src/Logging/Delivery.antt =====
-- Which sinks a message goes to.
use v8app.Base.{
  ◌≡◌, refl, Bool, ◌&&◌, ◌||◌, some, List, [], ◌∷◌, ◌++◌, arith, leb, ◌==◌, if◌then◌else◌, find,
}
use v8app.Logging.{
  Text, LogLevel, fatal, off, error, general, warn, debug, trace, rank, LogMessage, Log, Sink,
  sink_message, stamp, internal_log, log_at, place_in, offer, deliver, is_empty, without_app_name,
  log,
}

find-deliver :
    (level : LogLevel) (message : LogMessage) (key : Text) (sinks : List (Text × Sink))
    (sink : Sink)
    → find key sinks ≡ some sink
    → find key (deliver level message sinks) ≡ some (offer level message sink)
unfolding deliver
find-deliver level message key [] sink h = cc
find-deliver level message key ((k, other) ∷ sinks) sink h =
    ground (arith, find-deliver level message key sinks sink)

-- `Log`'s level lets a message of this level through.
abbrev pub passes : LogLevel → Log → Bool
passes level s = leb (rank level) (rank (s.log_level))

-- A sink takes a message that it wants, and a fatal one.
abbrev pub takes : LogLevel → Sink → Bool
takes level sink = sink.wants_log_message level || rank level == 0

pub log_cases :
    (now : Bool → Text) (level : LogLevel) (message : LogMessage) (s : Log)
    → log now level message s
      ≡ (if passes level s then internal_log now message level s else (message, s))
unfolding log
log_cases now fatal message s = ground arith
log_cases now off message s = refl
log_cases now error message s = refl
log_cases now general message s = refl
log_cases now warn message s = refl
log_cases now debug message s = refl
log_cases now trace message s = refl

pub log_at_cases :
    (now : Bool → Text) (level : LogLevel) (message : LogMessage) (file function line : Text)
    (s : Log)
    → log_at now level message file function line s ≡ (
        if passes level s
        then internal_log now (place_in file function line message) level s
        else (message, s))
unfolding log_at
log_at_cases now fatal message file function line s = ground arith
log_at_cases now off message file function line s = refl
log_at_cases now error message file function line s = refl
log_at_cases now general message file function line s = refl
log_at_cases now warn message file function line s = refl
log_at_cases now debug message file function line s = refl
log_at_cases now trace message file function line s = refl

offer-takes :
    (level : LogLevel) (message : LogMessage) (sink : Sink)
    → offer level message sink ≡ (if takes level sink then sink_message message sink else sink)
offer-takes level message sink = ground arith

-- A sink gets a message, with the log's own entries, exactly if the level passes and the sink wants it or
-- it is fatal.
pub log-delivers :
    (now : Bool → Text) (level : LogLevel) (message : LogMessage) (s : Log) (key : Text)
    (sink : Sink)
    → find key s.log_sinks ≡ some sink
    → find key (log now level message s).1.log_sinks
      ≡ some (
          if passes level s && takes level sink
          then sink_message (stamp now s level message) sink
          else sink)
unfolding internal_log
log-delivers now level message s key sink h = ground (
  arith,
  log_cases now level message s,
  offer-takes level (stamp now s level message) sink,
  find-deliver level (stamp now s level message) key s.log_sinks sink h,
)

-- The log prints a message itself exactly if the level passes and there is no sink.
log-cerr :
    (now : Bool → Text) (level : LogLevel) (message : LogMessage) (s : Log)
    → (log now level message s).1.cerr ≡ (
        if passes level s && is_empty s.log_sinks
        then s.cerr ++ ((s.app_name, without_app_name (stamp now s level message)) ∷ [])
        else s.cerr)
unfolding internal_log
log-cerr now level message s = ground (arith, log_cases now level message s)
