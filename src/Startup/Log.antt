-- ===== src/Startup/Log.antt =====
-- log.go. A line is what `fmt.Printf` writes; the time, formatted, is given.
use webrtc_cdn.Prelude.{ℕ, Bool, not, ◌++◌, Option, none, some, Str, codes, str_eq, if◌then◌else◌}
use webrtc_cdn.Machine.State.{ConnectionHandler}
use webrtc_cdn.Startup.Numbers.{itoa, to_int}

-- `os.Getenv`; a variable that is not set reads as the empty text.
abbrev pub Getenv : Type 0
Getenv = Str → Str

-- `LOG_REQUESTS_ENABLED` and `LOG_DEBUG_ENABLED`
pub record LogConfig : Type 0 where
  pub requests_enabled : Bool
  pub debug_enabled : Bool

-- `InitLog`
unfoldable pub init_log : Getenv → LogConfig
init_log getenv = record {
  requests_enabled = not (str_eq (getenv (codes "LOG_REQUESTS")) (codes "NO"));
  debug_enabled = str_eq (getenv (codes "LOG_DEBUG")) (codes "YES");
}

-- `LogLine`
unfoldable pub log_line : Str → Str → Str
log_line time line = codes "[" ++ (time ++ (codes "] " ++ (line ++ codes "\n")))

-- `LogWarning`, `LogInfo` and `LogError`
unfoldable pub log_warning : Str → Str → Str
unfolding log_line
log_warning time line = log_line time (codes "[WARNING] " ++ line)

unfoldable pub log_info : Str → Str → Str
unfolding log_line
log_info time line = log_line time (codes "[INFO] " ++ line)

unfoldable pub log_error : Str → Str → Str
unfolding log_line
log_error time err = log_line time (codes "[ERROR] " ++ err)

-- "#<id> (<ip>) <line>"
abbrev pub session_line : ℕ → Str → Str → Str
session_line session_id ip line =
    codes "#" ++ (itoa (to_int session_id) ++ (codes " (" ++ (ip ++ (codes ") " ++ line))))

-- `LogRequest`; `none` writes nothing.
unfoldable pub log_request : LogConfig → Str → ℕ → Str → Str → Option Str
unfolding log_line
log_request c time session_id ip line =
    if c.requests_enabled
    then some (log_line time (codes "[REQUEST] " ++ session_line session_id ip line))
    else none

-- `LogDebug`
unfoldable pub log_debug : LogConfig → Str → Str → Option Str
unfolding log_line
log_debug c time line =
    if c.debug_enabled then some (log_line time (codes "[DEBUG] " ++ line)) else none

-- `LogDebugSession`
unfoldable pub log_debug_session : LogConfig → Str → ℕ → Str → Str → Option Str
unfolding log_line
log_debug_session c time session_id ip line =
    if c.debug_enabled
    then some (log_line time (codes "[DEBUG] " ++ session_line session_id ip line))
    else none

-- `log` and `logDebug` of a handler.
unfoldable pub handler_log : LogConfig → Str → ConnectionHandler → Str → Option Str
unfolding log_request
handler_log config time h msg = log_request config time h.id h.ip msg

unfoldable pub handler_log_debug : LogConfig → Str → ConnectionHandler → Str → Option Str
unfolding log_debug_session
handler_log_debug config time h msg = log_debug_session config time h.id h.ip msg
