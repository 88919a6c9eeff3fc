-- ===== src/Loger/Calls.antt =====
-- The calls of the package loger, each at its level, and the texts of what is logged.
use go_cfc.Base.{Option, none, some, List, [], ◌∷◌, ◌++◌, Bytes, codes}
use go_cfc.Broadcast.{Case}
use go_cfc.Loger.{
  Logger, Ending, set_log, log_level_all, log_level_trace, log_level_debug, log_level_info,
  log_level_warn, log_level_xy, log_level_error, log_level_fatal, log_level_off, log_level_must,
}

-- Sprint, of the texts of its arguments: fmt.Sprintln without its last byte.
unfoldable pub sprint : List Bytes → Bytes
sprint [] = []
sprint (a ∷ []) = a
sprint (a ∷ b ∷ rest) = a ++ (b' ' ∷ sprint (b ∷ rest))

-- SprintConn, of the addresses of both sides of a connection, which may be nil.
unfoldable pub sprint_conn : Option (Bytes × Bytes) → List Bytes → Bytes
unfolding sprint
sprint_conn none parts = sprint (codes "[" ∷ codes "No network" ∷ codes "] :" ∷ sprint parts ∷ [])
sprint_conn (some (near, far)) parts =
    sprint (codes "[" ∷ near ∷ codes "->" ∷ far ∷ codes "] :" ∷ sprint parts ∷ [])

module _ (c : Case) (now stack : Bytes) (parts : List Bytes) (l : Logger) where
  unfoldable pub set_log_all : Option (Ending × Logger)
  unfolding set_log sprint
  set_log_all = set_log c now stack (sprint parts) log_level_all l

  unfoldable pub set_log_trace : Option (Ending × Logger)
  unfolding set_log sprint
  set_log_trace = set_log c now stack (sprint parts) log_level_trace l

  unfoldable pub set_log_debug : Option (Ending × Logger)
  unfolding set_log sprint
  set_log_debug = set_log c now stack (sprint parts) log_level_debug l

  unfoldable pub set_log_info : Option (Ending × Logger)
  unfolding set_log sprint
  set_log_info = set_log c now stack (sprint parts) log_level_info l

  unfoldable pub set_log_warn : Option (Ending × Logger)
  unfolding set_log sprint
  set_log_warn = set_log c now stack (sprint parts) log_level_warn l

  unfoldable pub set_log_xy : Option (Ending × Logger)
  unfolding set_log sprint
  set_log_xy = set_log c now stack (sprint parts) log_level_xy l

  unfoldable pub set_log_panic : Option (Ending × Logger)
  unfolding set_log sprint
  set_log_panic = set_log c now stack (sprint parts) log_level_error l

  unfoldable pub set_log_fatal : Option (Ending × Logger)
  unfolding set_log sprint
  set_log_fatal = set_log c now stack (sprint parts) log_level_fatal l

  unfoldable pub set_log_off : Option (Ending × Logger)
  unfolding set_log sprint
  set_log_off = set_log c now stack (sprint parts) log_level_off l

  unfoldable pub set_log_must : Option (Ending × Logger)
  unfolding set_log sprint
  set_log_must = set_log c now stack (sprint parts) log_level_must l
