-- ===== src/Task.antt =====
-- tool/cMsgTask.go: requests that wait for the message that answers them. A task is a number, and
-- its record is found under it; a callback is run for its error alone. The channels `wait` and
-- `stop` hold one value each: the reader that finds `wait` full is kept in `sending`.
pub mod Delivery
pub mod Less
pub mod Safety
use go_cfc.Base.{
  ℕ, suc, Bool, true, false, Option, none, some, List, [], ◌∷◌, ◌++◌, String, ◌==◌, if◌then◌else◌,
  Bytes, str_eq,
}
use go_cfc.Base.Assoc.{lookup, insert, delete}
use go_cfc.Base.Int.{ℤ}
use go_cfc.Wire.Errors.{Result, ok, err, panic, stuck}
use go_cfc.Wire.Cipher.{Gcm}
use go_cfc.Wire.Message.{ConnMsg, Data, Json, Key, set_msg}

-- `other n` is an error of a callback, a task's function or a Write.
pub data TaskError : Type 0 where
  is_disable timed_out : TaskError
  other : ℕ → TaskError

-- `Option TaskError` is Go's error: `none` is nil.
pub record TaskCb (M : Type 0) : Type 0 where
  pub id : String
  pub cb : Option (M → Option TaskError)
  pub wait : Option (Option TaskError)
  pub keep : Bool
  pub disable : Bool
  pub stop : Option (Option TaskError)

pub record TaskCbContext (M : Type 0) : Type 0 where
  pub task_map : List (String × ℕ)
  pub tasks : ℕ → TaskCb M
  pub disable : Bool
  -- whether noCbFn is set, and the messages it was called with
  pub has_no_cb : Bool
  pub no_cb : List M
  -- what the reader is blocked on
  pub sending : Option (ℕ × Option TaskError)
  -- the packets that were written
  pub written : List Bytes

module _ {M : Type 0} where
  unfoldable pub new_task_context : (ℕ → TaskCb M) → TaskCbContext M
  new_task_context tasks = record {
    task_map = [];
    tasks = tasks;
    disable = false;
    has_no_cb = false;
    no_cb = [];
    sending = none;
    written = [];
  }

  unfoldable pub close_context : TaskCbContext M → TaskCbContext M
  close_context s = record s { disable = true }

  unfoldable pub set_no_cb : TaskCbContext M → TaskCbContext M
  set_no_cb s = record s { has_no_cb = true }

  -- `task.f = v` at the task `i`
  unfoldable pub change : ℕ → (TaskCb M → TaskCb M) → TaskCbContext M → TaskCbContext M
  change i f s = record s { tasks = λ j. if j == i then f (s.tasks i) else s.tasks j }

  -- NewTaskCb and its two variants, at the unused number `i`.
  unfoldable pub new_task_cb : ℕ → String → TaskCbContext M → TaskCbContext M
  unfolding change
  new_task_cb i id s =
      change i
        (λ _. record {
          id = id;
          cb = none;
          wait = none;
          keep = false;
          disable = false;
          stop = none;
        })
        s

  unfoldable pub set_keep : ℕ → Bool → TaskCbContext M → TaskCbContext M
  set_keep i keep s = change i (λ t. record t { keep = keep }) s

  -- OverTask(err): a value that is already in `stop` stays there.
  unfoldable pub over_task : ℕ → Option TaskError → TaskCbContext M → TaskCbContext M
  over_task i e s =
      let s1 =
        change i
          (λ t. record t { stop = elim t.stop [ none ↦ some e | some x ↦ some x ]; disable = true })
          s in
      record s1 { task_map = delete (s.tasks i).id s1.task_map }

  unfoldable pub get_task : String → TaskCbContext M → Option ℕ × TaskCbContext M
  get_task key s = elim (lookup key s.task_map) [
    | none ↦ (none, s)
    | some i ↦
        (some i, (if (s.tasks i).keep then s else record s { task_map = delete key s.task_map }))
  ]

  -- `task.wait <- x`
  unfoldable pub send : ℕ → Option TaskError → TaskCbContext M → TaskCbContext M
  send i x s = elim (s.tasks i).wait [
    | none ↦ change i (λ t. record t { wait = some x }) s
    | some _ ↦ record s { sending = some (i, x) }
  ]

  -- getTaskAndRun at the message `m`, whose Id is `id`; `none` is the call of a nil callback.
  unfoldable pub get_task_and_run : String → M → TaskCbContext M → Option (TaskCbContext M)
  get_task_and_run id m s =
      let (task, s1) = get_task id s in
      elim task [
        | some i ↦
            if (s1.tasks i).disable
            then some s1
            else elim (s1.tasks i).cb [ none ↦ none | some cb ↦ some (send i (cb m) s1) ]
        | none ↦ some (if s1.has_no_cb then record s1 { no_cb = s1.no_cb ++ m ∷ [] } else s1)
      ]

  -- The blocked reader, once there is room.
  unfoldable pub resume : TaskCbContext M → TaskCbContext M
  resume s = elim s.sending [ none ↦ s | some (i, x) ↦ send i x (record s { sending = none }) ]

  -- The deferred function of WaitCb and KeepWaitCb.
  unfoldable pub leave : ℕ → Option TaskError → TaskCbContext M → Option TaskError × TaskCbContext M
  leave i none s = (none, s)
  leave i (some e) s = (some e, over_task i none s)

  -- The start of WaitCb, NowaitCb and KeepWaitCb: `fn` is the task's function, if it has one. It
  -- is run when the task can already be found.
  unfoldable pub nowait_cb :
      ℕ
      → (M → Option TaskError)
      → Option (TaskCbContext M → Option TaskError × TaskCbContext M)
      → TaskCbContext M
      → Option TaskError × TaskCbContext M
  unfolding change
  nowait_cb i cb fn s =
      if s.disable
      then (some is_disable, s)
      else let s1 = change i (λ t. record t { cb = some cb }) s in
        let s2 = record s1 { task_map = insert (s.tasks i).id i s1.task_map } in
        elim fn [ none ↦ (none, s2) | some f ↦ f s2 ]

-- The cases of the select; which one is taken is not determined when several are ready.
pub data Select : Type 0 where
  on_timeout on_wait on_stop : Select

module _ {M : Type 0} where
  -- The select of WaitCb: `none` is a case that is not ready.
  unfoldable pub wait_cb :
      ℕ → Select → TaskCbContext M → Option (Option TaskError × TaskCbContext M)
  wait_cb i on_timeout s = some (leave i (some timed_out) s)
  wait_cb i on_wait s = elim (s.tasks i).wait [
    | none ↦ none
    | some e ↦ some (leave i e (change i (λ t. record t { wait = none }) s))
  ]
  wait_cb i on_stop s = elim (s.tasks i).stop [
    | none ↦ none
    | some _ ↦ some (none, change i (λ t. record t { stop = none }) s)
  ]

  -- A round of KeepWaitCb; `some (none, s)` goes on, `some (some e, s)` returns `e`.
  unfoldable pub keep_wait_cb :
      ℕ → Select → TaskCbContext M → Option (Option (Option TaskError) × TaskCbContext M)
  keep_wait_cb i on_timeout s = let (e, s1) = leave i (some timed_out) s in some (some e, s1)
  keep_wait_cb i on_wait s = elim (s.tasks i).wait [
    | none ↦ none
    | some none ↦ some (none, change i (λ t. record t { wait = none }) s)
    | some (some e) ↦
        let (e', s1) = leave i (some e) (change i (λ t. record t { wait = none }) s) in
        some (some e', s1)
  ]
  keep_wait_cb i on_stop s = elim (s.tasks i).stop [
    | none ↦ none
    | some e ↦
        let (e', s1) = leave i e (change i (λ t. record t { stop = none }) s) in some (some e', s1)
  ]

  -- `outcome n` is the error of the Write number n.
  unfoldable pub write_parts :
      (ℕ → Option TaskError) → ℕ → List Bytes → TaskCbContext M → Option TaskError × TaskCbContext M
  write_parts outcome n [] s = (none, s)
  write_parts outcome n (one ∷ parts) s = elim (outcome n) [
    | some e ↦ (some e, s)
    | none ↦ write_parts outcome (suc n) parts (record s { written = s.written ++ one ∷ [] })
  ]

  -- `none` is a panic of SetMsg.
  unfoldable pub task_write_c_msg :
      (g : Gcm) (json : Json)
      → Key
      → (ℕ → Option TaskError)
      → ℕ
      → String
      → String
      → ℤ
      → Data json.J
      → TaskCbContext M
      → Option (Option TaskError × TaskCbContext M)
  task_write_c_msg g json k outcome draw header id code d s =
      if s.disable
      then some (some is_disable, s)
      else elim (set_msg g json k draw header id code d) [
        | ok parts ↦ some (write_parts outcome 0 parts s)
        | err _ ↦ none
        | panic ↦ none
        | stuck ↦ none
      ]
