-- ===== src/Task/Safety.antt =====
-- The operations of a context as steps, and what holds after any number of them.
use go_cfc.Base.{ℕ, ◌≡◌, ◌≢◌, Bool, Option, none, some, List, String, Bytes}
use go_cfc.Base.Assoc.{lookup}
use go_cfc.Task.{
  TaskError, TaskCb, TaskCbContext, new_task_context, close_context, set_no_cb, new_task_cb,
  set_keep, get_task_and_run, resume, over_task, nowait_cb, Select, wait_cb, keep_wait_cb, leave,
  write_parts,
}

module _ {M : Type 0} where
  -- A step of a context. The number of a new task is one that no waiting task has; the function
  -- of a task writes packets, if there is one.
  pub data Move (s : TaskCbContext M) : TaskCbContext M → Type 0 where
    closes : Move s (close_context s)
    sets_no_cb : Move s (set_no_cb s)
    creates :
        (i : ℕ) (id : String)
        → ((key : String) → lookup key s.task_map ≢ some i)
        → Move s (new_task_cb i id s)
    keeps : (i : ℕ) (keep : Bool) → Move s (set_keep i keep s)
    overs : (i : ℕ) (e : Option TaskError) → Move s (over_task i e s)
    waits_for : (i : ℕ) (cb : M → Option TaskError) → Move s (nowait_cb i cb none s).1
    asks :
        (i : ℕ) (cb : M → Option TaskError) (outcome : ℕ → Option TaskError) (parts : List Bytes)
        → Move s (nowait_cb i cb (some (write_parts outcome 0 parts)) s).1
    receives :
        (id : String) (m : M) (t : TaskCbContext M) → get_task_and_run id m s ≡ some t → Move s t
    resumes : Move s (resume s)
    leaves : (i : ℕ) (e : Option TaskError) → Move s (leave i e s).1
    selects :
        (i : ℕ) (on : Select) (e : Option TaskError) (t : TaskCbContext M)
        → wait_cb i on s ≡ some (e, t)
        → Move s t
    goes_on :
        (i : ℕ) (on : Select) (e : Option (Option TaskError)) (t : TaskCbContext M)
        → keep_wait_cb i on s ≡ some (e, t)
        → Move s t

  pub data Reached : TaskCbContext M → Type 0 where
    fresh : (tasks : ℕ → TaskCb M) → Reached (new_task_context tasks)
    after : (s t : TaskCbContext M) → Reached s → Move s t → Reached t
