-- ===== src/Loger.antt =====
-- loger/log.go: what is logged, and how a call of the logger ends. The texts that fmt prints are
-- made here from their parts; the stack view and the date are given.
pub mod Calls
pub mod Lines
use go_cfc.Base.{
  ℕ, ◌+◌, ◌/◌, ◌%◌, Bool, true, false, Option, none, some, List, [], ◌∷◌, ◌++◌, Bytes, ltb, ◌==◌,
  ◌||◌, if◌then◌else◌, codes,
}
use go_cfc.Broadcast.{RwBroadcast, new_rw_broadcast, set_listener, del_listener, write_rw, Case}

abbrev pub log_level_all : ℕ
log_level_all = 0

abbrev pub log_level_trace : ℕ
log_level_trace = 1

abbrev pub log_level_debug : ℕ
log_level_debug = 2

abbrev pub log_level_info : ℕ
log_level_info = 3

abbrev pub log_level_warn : ℕ
log_level_warn = 4

abbrev pub log_level_xy : ℕ
log_level_xy = 5

abbrev pub log_level_error : ℕ
log_level_error = 6

abbrev pub log_level_fatal : ℕ
log_level_fatal = 7

abbrev pub log_level_off : ℕ
log_level_off = 8

abbrev pub log_level_must : ℕ
log_level_must = 9

-- The package's variables.
pub record Logger : Type 0 where
  pub log_level : ℕ
  pub need_stack : Bool
  pub need_color : Bool
  pub broadcast : RwBroadcast

-- `init`: os.Stdout is the first listener.
unfoldable pub init : Logger
init = record {
  log_level = log_level_info;
  need_stack = false;
  need_color = true;
  broadcast = (set_listener (new_rw_broadcast 64)).1;
}

unfoldable pub set_logger_copy : Logger → ℕ × Logger
set_logger_copy l = let (id, b) = set_listener l.broadcast in (id, record l { broadcast = b })

unfoldable pub del_logger_copy : ℕ → Logger → Logger
del_logger_copy id l = record l { broadcast = del_listener id l.broadcast }

unfoldable pub set_logger_level : ℕ → Logger → Logger
set_logger_level level l = record l { log_level = level }

unfoldable pub set_logger_stack : Bool → Logger → Logger
set_logger_stack need l = record l { need_stack = need }

unfoldable pub set_logger_color : Bool → Logger → Logger
set_logger_color need l = record l { need_color = need }

abbrev pub log_show : ℕ → Bytes
log_show level =
    if level == 0
    then codes "ALL"
    else if level == 1
    then codes "TRACE"
    else if level == 2
    then codes "DEBUG"
    else if level == 3
    then codes "INFO"
    else if level == 4
    then codes "WARN"
    else if level == 5
    then codes "Log"
    else if level == 6
    then codes "ERROR"
    else if level == 7
    then codes "FATAL"
    else if level == 8
    then codes "OFF"
    else codes "Must"

-- `%d` of a number below 100.
show : ℕ → Bytes
show n = if ltb n 10 then (48 + n) ∷ [] else (48 + n / 10) ∷ (48 + n % 10) ∷ []

unfoldable pub sprint_color : Logger → ℕ → ℕ → ℕ → Bytes → Bytes
unfolding show
sprint_color l t f b body =
    if l.need_color
    then 27
      ∷ b'['
      ∷ (show t ++ (b';' ∷ (show f ++ (b';' ∷ (show b ++ (b'm' ∷ (body ++ (27 ∷ codes "[0m"))))))))
    else body

-- The tag of one of the ten levels; that of LogLevelOff is empty.
unfoldable pub get_pre_tag : Logger → ℕ → Bytes
unfolding sprint_color
get_pre_tag l level =
    let tag = λ (f b : ℕ). sprint_color l 7 f b (b'[' ∷ (log_show level ++ (b']' ∷ []))) in
    if level == log_level_all
    then tag 37 47
    else if level == log_level_trace
    then tag 34 44
    else if level == log_level_debug
    then tag 36 46
    else if level == log_level_info
    then tag 32 42
    else if level == log_level_warn
    then tag 33 43
    else if level == log_level_xy
    then tag 38 43
    else if level == log_level_error
    then tag 31 41
    else if level == log_level_fatal
    then tag 35 45
    else if level == log_level_must
    then tag 30 40
    else []

-- How setLog ends: it returns, panics, or ends the program.
pub data Ending : Type 0 where
  returned panicked exited : Ending

unfoldable pub is_logged : Logger → ℕ → Bool
is_logged l level = if ltb level l.log_level || l.log_level == log_level_off then false else true

-- The switch at the end of setLog.
unfoldable pub ending : ℕ → Ending
ending level =
    if level == log_level_error
    then panicked
    else if level == log_level_fatal
    then exited
    else returned

-- fmt.Sprintln
unfoldable pub sprintln : List Bytes → Bytes
sprintln [] = 10 ∷ []
sprintln (a ∷ []) = a ++ (10 ∷ [])
sprintln (a ∷ as') = a ++ (b' ' ∷ sprintln as')

unfoldable pub add_stack : Logger → Bytes → Bytes
add_stack l stack = if l.need_stack then codes "\n[Stack View]:\n" ++ stack else []

-- The line of a message: its tag, the time, the message and the stack view.
unfoldable pub line : Logger → (now stack body : Bytes) → ℕ → Bytes
line l now stack body level =
    sprintln (get_pre_tag l level ∷ sprint_color l 4 1 1 now ∷ body ∷ add_stack l stack ∷ [])

-- setLog with the text `body`, at the case that the select of broadcast.Write takes; `none` is a
-- case that is not ready.
unfoldable pub set_log : Case → (now stack body : Bytes) → ℕ → Logger → Option (Ending × Logger)
unfolding is_logged ending
set_log c now stack body level l =
    if is_logged l level
    then elim (write_rw c (line l now stack body level) l.broadcast) [
      | none ↦ none
      | some (_, b) ↦ some (ending level, record l { broadcast = b })
    ]
    else some (returned, l)
