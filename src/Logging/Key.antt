-- ===== src/Logging/Key.antt =====
-- The keys of a log message (namespace MsgKey of libs/core/include/Logging/Log.h).
use v8app.Base.{List, codes, ℕ}

abbrev pub log_level : List ℕ
log_level = codes "LogLevel"

abbrev pub msg : List ℕ
msg = codes "Message"

abbrev pub time_stamp : List ℕ
time_stamp = codes "Timestamp"

abbrev pub app_name : List ℕ
app_name = codes "AppNmae"

abbrev pub file : List ℕ
file = codes "File"

abbrev pub line : List ℕ
line = codes "Line"

abbrev pub function : List ℕ
function = codes "Function"
