-- ===== src/Task/Delivery.antt =====
-- An answer reaches the task that waits for it, once.
use go_cfc.Base.{
  ℕ, ◌≡◌, sym, ap, ◌∙◌, false, Option, none, some, List, [], ◌∷◌, ◌++◌, String, arith, eq_iff,
  if◌then◌else◌,
}
use go_cfc.Base.Assoc.{lookup, delete, lookup-insert, lookup-delete}
use go_cfc.Task.{
  TaskError, TaskCbContext, get_task, get_task_and_run, send, over_task, nowait_cb, wait_cb,
  on_wait, leave, change,
}

forgotten : (id : String) (m : List (String × ℕ)) → lookup id (delete id m) ≡ none
forgotten id m = ground (arith, lookup-delete id id m, eq_iff id id)

module _ {M : Type 0} where
  -- A message with an id that no task waits for.
  abbrev pub unclaimed : M → TaskCbContext M → TaskCbContext M
  unclaimed n s = if s.has_no_cb then record s { no_cb = s.no_cb ++ n ∷ [] } else s

  nobody_waits :
      (id : String) (n : M) (s : TaskCbContext M)
      → lookup id s.task_map ≡ none
      → get_task_and_run id n s ≡ some (unclaimed n s)
  unfolding get_task_and_run get_task
  nobody_waits id n s e = ground arith

  -- A task that waits with the callback `cb`.
  record Waits (i : ℕ) (cb : M → Option TaskError) (s : TaskCbContext M) : Type 0 where
    found : lookup (s.tasks i).id s.task_map ≡ some i
    called : (s.tasks i).cb ≡ some cb
    not_kept : (s.tasks i).keep ≡ false
    going : (s.tasks i).disable ≡ false
    room : (s.tasks i).wait ≡ none

  waits :
      (i : ℕ) (cb : M → Option TaskError) (s : TaskCbContext M)
      → s.disable ≡ false
      → (s.tasks i).keep ≡ false
      → (s.tasks i).disable ≡ false
      → (s.tasks i).wait ≡ none
      → let (e, t) = nowait_cb i cb none s in
        (e ≡ none) × Waits i cb t × ((t.tasks i).id ≡ (s.tasks i).id)
  unfolding nowait_cb change
  waits i cb s works k d r =
      let f = lookup-insert (s.tasks i).id (s.tasks i).id i s.task_map in
      (
        ground arith,
        record {
          found = ground (arith, f, eq_iff (s.tasks i).id (s.tasks i).id);
          called = ground arith;
          not_kept = ground arith;
          going = ground arith;
          room = ground arith;
        },
        ground arith,
      )

  -- The context when the value `e` has been sent to the task `i`.
  abbrev handed : ℕ → Option TaskError → TaskCbContext M → TaskCbContext M
  handed i e s =
      change i (λ t. record t { wait = some e })
        (record s { task_map = delete (s.tasks i).id s.task_map })

  delivered :
      (i : ℕ) (cb : M → Option TaskError) (m : M) (s : TaskCbContext M)
      → Waits i cb s
      → get_task_and_run (s.tasks i).id m s ≡ some (handed i (cb m) s)
  unfolding get_task_and_run get_task send change
  delivered i cb m s h = ground (arith, h.found, h.not_kept, h.going, h.called, h.room)

  -- What the call of WaitCb returns then.
  returned :
      (i : ℕ) (e : Option TaskError) (s : TaskCbContext M)
      → (u : TaskCbContext M) × (wait_cb i on_wait (handed i e s) ≡ some (e, u))
        × (lookup (s.tasks i).id u.task_map ≡ none)
  unfolding wait_cb leave over_task change
  returned i none s = (
    change i (λ t. record t { wait = none }) (handed i none s),
    ground arith,
    forgotten (s.tasks i).id s.task_map,
  )
  returned i (some e) s = (
    over_task i none (change i (λ t. record t { wait = none }) (handed i (some e) s)),
    ground arith,
    ground (arith, forgotten (s.tasks i).id (delete (s.tasks i).id s.task_map)),
  )

  -- A task that waits with the callback `cb` for the messages of its id, on a context that is
  -- not closed, by a call without a function of its own (WaitCb or NowaitCb with a nil `fn`). It
  -- is not kept and not over, and its channel is empty. The first message with its id makes the
  -- call of WaitCb return what `cb` says of that message; from then on the id is in nobody's hands:
  -- a further message with it goes to noCbFn, when that is set, and changes nothing else.
  pub answered_once :
      (i : ℕ) (cb : M → Option TaskError) (m n : M) (s : TaskCbContext M)
      → s.disable ≡ false
      → (s.tasks i).keep ≡ false
      → (s.tasks i).disable ≡ false
      → (s.tasks i).wait ≡ none
      → let id = (s.tasks i).id in
        let (e, s1) = nowait_cb i cb none s in
        (e ≡ none)
        × ((s2 s3 : TaskCbContext M) × (get_task_and_run id m s1 ≡ some s2)
            × (wait_cb i on_wait s2 ≡ some (cb m, s3))
            × (get_task_and_run id n s3 ≡ some (unclaimed n s3)))
  answered_once i cb m n s works k d r =
      let (fine, w, same) = waits i cb s works k d r in
      let t = (nowait_cb i cb none s).1 in
      let (s3, e3, gone) = returned i (cb m) t in
      (
        fine,
        (
          handed i (cb m) t,
          s3,
          ap (λ x. get_task_and_run x m t) (sym same) ∙ delivered i cb m t w,
          e3,
          nobody_waits (s.tasks i).id n s3 (ap (λ x. lookup x s3.task_map) (sym same) ∙ gone),
        ),
      )
