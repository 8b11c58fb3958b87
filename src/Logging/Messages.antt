-- ===== src/Logging/Messages.antt =====
-- What a message holds once the log has added its own entries.
use v8app.Base.{
  ◌≡◌, refl, Bool, Option, none, some, ◌≤◌, arith, list_eq, if◌then◌else◌, find, emplace,
  find-emplace,
}
use v8app.Logging.{
  Text, LogLevel, fatal, off, error, general, warn, debug, trace, rank, log_level_to_string,
  LogMessage, Log, stamp, internal_log, place_in, log_at,
}
use v8app.Logging.Key

-- The value that is there, or else the other.
abbrev pub or_else : Option Text → Option Text → Option Text
or_else (some v) w = some v
or_else none w = w

-- What the log says under a key.
pub own_entry : (Bool → Text) → Log → LogLevel → Text → Option Text
own_entry now s level key =
    if list_eq Key.time_stamp key
    then some (now s.use_utc)
    else if list_eq Key.app_name key
    then some (s.app_name)
    else if list_eq Key.log_level key
    then some (log_level_to_string level)
    else none

-- What the place in the source says under a key.
pub place_entry : Text → Text → Text → Text → Option Text
place_entry file function line key =
    if list_eq Key.file key
    then some file
    else if list_eq Key.function key
    then some function
    else if list_eq Key.line key
    then some line
    else none

find-stamp :
    (now : Bool → Text) (s : Log) (level : LogLevel) (message : LogMessage) (key : Text)
    → find key (stamp now s level message) ≡ or_else (find key message) (own_entry now s level key)
unfolding stamp own_entry
find-stamp now s level message key =
    let m₁ = emplace Key.time_stamp (now s.use_utc) message in
    let m₂ = emplace Key.app_name (s.app_name) m₁ in
    ground (
      arith,
      find-emplace Key.time_stamp key (now s.use_utc) message,
      find-emplace Key.app_name key (s.app_name) m₁,
      find-emplace Key.log_level key (log_level_to_string level) m₂,
    )

find-place_in :
    (file function line : Text) (message : LogMessage) (key : Text)
    → find key (place_in file function line message)
      ≡ or_else (find key message) (place_entry file function line key)
unfolding place_in place_entry
find-place_in file function line message key =
    let m₁ = emplace Key.file file message in
    let m₂ = emplace Key.function function m₁ in
    ground (
      arith,
      find-emplace Key.file key file message,
      find-emplace Key.function key function m₁,
      find-emplace Key.line key line m₂,
    )

log_at_passes :
    (now : Bool → Text) (level : LogLevel) (message : LogMessage) (file function line : Text)
    (s : Log)
    → rank level ≤ rank (s.log_level)
    → log_at now level message file function line s
      ≡ internal_log now (place_in file function line message) level s
unfolding log_at
log_at_passes now fatal message file function line s h = refl
log_at_passes now off message file function line s h = ground arith
log_at_passes now error message file function line s h = ground arith
log_at_passes now general message file function line s h = ground arith
log_at_passes now warn message file function line s h = ground arith
log_at_passes now debug message file function line s h = ground arith
log_at_passes now trace message file function line s h = ground arith

internal_log-message :
    (now : Bool → Text) (message : LogMessage) (level : LogLevel) (s : Log)
    → (internal_log now message level s).0 ≡ stamp now s level message
unfolding internal_log
internal_log-message now message level s = ground arith

-- A message whose level passes comes back from a call that names its place with all that the caller put
-- in, then the place, then the time, the app name and the level, where an earlier entry is never
-- overwritten by a later one.
pub log_at_message :
    (now : Bool → Text) (level : LogLevel) (message : LogMessage) (file function line : Text)
    (s : Log) (key : Text)
    → rank level ≤ rank (s.log_level)
    → find key (log_at now level message file function line s).0
      ≡ or_else
          (find key message)
          (or_else (place_entry file function line key) (own_entry now s level key))
log_at_message now level message file function line s key h =
    let placed = place_in file function line message in
    ground (
      arith,
      log_at_passes now level message file function line s h,
      internal_log-message now placed level s,
      find-stamp now s level placed key,
      find-place_in file function line message key,
    )
