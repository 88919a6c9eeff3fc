-- ===== src/Runs.antt =====
-- Concrete runs of the ticker, the tasks, the closers and the sub types, with the theorems at them.
use go_cfc.Base.{
  ℕ, ◌%◌, ◌^◌, Bytes, concat, take, drop, ◌+◌, ◌≡◌, refl, true, false, Option, none, some, List, [],
  ◌∷◌, ◌++◌, String, arith, ◌==◌, if◌then◌else◌,
}
use go_cfc.Speed.{new_speed_ticker, set, get, NetworkSpeedView}
use go_cfc.Speed.Counts.{sets, counts, get-sets}
use go_cfc.Task.{
  TaskError, TaskCb, TaskCbContext, new_task_context, get_task_and_run, nowait_cb, wait_cb, on_wait,
}
use go_cfc.Task.Delivery.{unclaimed, answered_once}
use go_cfc.Closer.{
  new_ctx_closer, close_ctx, check_done, CloseWaiter, new_close_waiter, close_waiter, wait_close,
}
use go_cfc.Closer.Once.{
  add, closing, check, ops, adds, closed_once, waiter_adds, closes, wait-first_close,
}
use go_cfc.Broadcast.{RwBroadcast, new_rw_broadcast, set_listener, write_rw, spoken, copy_loop}
use go_cfc.Broadcast.Hearing.{Goes, stays, writes, copies, all_of, heard_in_order}
use go_cfc.Client.SubTypes.{
  way_failed, sub_type_to_mix_get_sub_box_failed, failed, got, DeviceBox, get_sub_box_by_sub_type,
  get_sub_box_by_sub_type_mix, nil_errs, Fail, none_left, fails, get_sub_box_by_sub_type_mix_lem,
}
use go_cfc.Loger.{Logger, init, set_log, line, sprintln, get_pre_tag, sprint_color, add_stack}
use go_cfc.LinkBox.{
  LinkBox, read_link_box_to_writer, write_link_box_from_reader, write_list, read_some,
}
use go_cfc.LinkBox.Copying.{Rounds, reads, sends, stops, link_box_copies}

-- Set at 3.0 s, 3.2 s and 3.9 s, which rounds to the next second.
get-sets_example :
    (get 4000000000
      (set 3900000000 9 (sets ((3200000000, 7) ∷ []) (set 3000000000 5 new_speed_ticker)))).0
    ≡ (5 + counts ((3200000000, 7) ∷ [])) % 2 ^ 64
get-sets_example =
    get-sets new_speed_ticker 3000000000 5 ((3200000000, 7) ∷ []) 3900000000 9 4000000000
      (omega arith) (λ e. omega (arith, e)) (refl, tt) refl refl

abbrev views : List NetworkSpeedView
views =
    record { upload_speed = 3; download_speed = 4 }
    ∷ record { upload_speed = 5; download_speed = 0 }
    ∷ []

-- A context with the task "7".
abbrev task : TaskCb ℕ
task = record { id = "7"; cb = none; wait = none; keep = false; disable = false; stop = none }

abbrev context : TaskCbContext ℕ
unfolding new_task_context
context = new_task_context (λ i. task)

abbrev callback : ℕ → Option TaskError
callback n = if n == 3 then none else some TaskError.timed_out

answered_once_example :
    let (e, s1) = nowait_cb 0 callback none context in
    (e ≡ none)
    × ((s2 s3 : TaskCbContext ℕ) × (get_task_and_run "7" 3 s1 ≡ some s2)
        × (wait_cb 0 on_wait s2 ≡ some (callback 3, s3))
        × (get_task_and_run "7" 4 s3 ≡ some (unclaimed 4 s3)))
unfolding context
answered_once_example = answered_once 0 callback 3 4 context refl refl refl refl

closed_once_example :
    let s =
      ops (add 4 ∷ closing ∷ check ∷ []) (close_ctx (adds (2 ∷ 3 ∷ []) (new_ctx_closer true))) in
    (s.ran ≡ 2 ∷ 3 ∷ []) × ((check_done s).0 ≡ true)
closed_once_example = closed_once true (2 ∷ 3 ∷ []) (add 4 ∷ closing ∷ check ∷ [])

wait-first_close_example :
    let s =
      closes
        (none ∷ [])
        (close_waiter (some 8) (waiter_adds (2 ∷ 3 ∷ []) (new_close_waiter {E = ℕ}))) in
    (s.ran ≡ 2 ∷ 3 ∷ [])
    × ((t : CloseWaiter ℕ) × (wait_close s ≡ some (some 8, t))
        × (wait_close (closes (some 9 ∷ []) t) ≡ none))
wait-first_close_example = wait-first_close (2 ∷ 3 ∷ []) (some 8) (none ∷ []) (some 9 ∷ [])

-- Only UP2P works, and each way that is tried is counted.
abbrev box : DeviceBox ℕ String String
box = record {
  get_sub_box = λ name s. some (failed (way_failed "proxy"), s + 1);
  get_sub_box_by_p2p = λ name s. some (failed (way_failed "p2p"), s + 1);
  get_sub_box_by_up2p = λ name s. some (got name, s + 1);
}

two_failed :
    Fail box "bob"
      ("SubTypeProxy" ∷ "SubTypeP2P" ∷ [])
      0
      (some (way_failed "proxy") ∷ some (way_failed "p2p") ∷ [])
      2
unfolding get_sub_box_by_sub_type
two_failed =
    fails "SubTypeProxy" _ _ _ 0 1 2 refl (fails "SubTypeP2P" [] _ [] 1 2 2 refl (none_left 2))

get_sub_box_by_sub_type_mix_lem_example :
    (get_sub_box_by_sub_type_mix box "bob" ("SubTypeProxy" ∷ "SubTypeP2P" ∷ []) 0
      ≡ some (
        failed sub_type_to_mix_get_sub_box_failed,
        some (way_failed "proxy") ∷ some (way_failed "p2p") ∷ [],
        2,
      ))
    × ((one : String) (us : List String) (sub : String) (u : ℕ)
        → get_sub_box_by_sub_type box "bob" one 2 ≡ some (got sub, u)
        → get_sub_box_by_sub_type_mix box "bob" ("SubTypeProxy" ∷ "SubTypeP2P" ∷ one ∷ us) 0
          ≡ some (
            got sub,
            some (way_failed "proxy") ∷ some (way_failed "p2p") ∷ none ∷ nil_errs box us,
            u,
          ))
get_sub_box_by_sub_type_mix_lem_example =
    get_sub_box_by_sub_type_mix_lem box "bob" ("SubTypeProxy" ∷ "SubTypeP2P" ∷ []) _ 0 2 two_failed

-- A listener is set, the text 1 2 is written, and it is copied.
abbrev listening : RwBroadcast
unfolding new_rw_broadcast set_listener
listening = (set_listener (new_rw_broadcast 4)).1

abbrev spoke : RwBroadcast
unfolding listening
spoke = record listening { spokesman = (1 ∷ 2 ∷ []) ∷ [] }

abbrev heard_it : RwBroadcast
unfolding spoke
heard_it = record spoke {
  spokesman = [];
  heard = λ i. if spoke.listener i then [] ++ (1 ∷ 2 ∷ []) ∷ [] else [];
}

listening_on : listening.listener 1 ≡ true
unfolding listening
listening_on = refl

said : Goes 1 listening ((1 ∷ 2 ∷ []) ∷ []) heard_it
unfolding heard_it spoke listening write_rw copy_loop
said =
    writes (1 ∷ 2 ∷ []) 2 listening spoke heard_it [] refl
      (copies spoken spoke heard_it heard_it [] refl refl (stays heard_it))

heard_in_order_example : all_of 1 heard_it ≡ all_of 1 listening ++ ((1 ∷ 2 ∷ []) ∷ [])
heard_in_order_example = heard_in_order 1 listening heard_it ((1 ∷ 2 ∷ []) ∷ []) listening_on said

-- An error is logged for the listener of the logger, at its first level; it panics.
abbrev logger : Logger
unfolding init new_rw_broadcast set_listener
logger = init

abbrev after_log : Logger
unfolding logger write_rw line sprintln get_pre_tag sprint_color add_stack
after_log = elim (set_log spoken (1 ∷ []) [] (2 ∷ []) 6 logger) [ none ↦ logger | some (e, l) ↦ l ]

-- Three bytes go from the link in two rounds, and one comes back in between.
abbrev link : Bytes → List Bytes → LinkBox
link reader written = record {
  readr_size = 2;
  link_reader = reader;
  link_written = written;
  link_read_fn = none;
  link_write_fn = none;
}

copied :
    Rounds
      (link (1 ∷ 2 ∷ 3 ∷ []) [])
      (9 ∷ [])
      []
      (link [] ((9 ∷ []) ∷ []))
      []
      ((1 ∷ 2 ∷ []) ∷ (3 ∷ []) ∷ [])
unfolding read_link_box_to_writer write_link_box_from_reader write_list go_cfc.LinkBox.writes
    read_some take drop
copied =
    reads (some 4) (λ n. true) _ (link (3 ∷ []) []) _ _ _ _ ((1 ∷ 2 ∷ []) ∷ []) _ refl
      (sends (some 1) (λ n. true) 8 _ (link (3 ∷ []) ((9 ∷ []) ∷ [])) _ _ [] _ _ _ refl
        (reads (some 4) (λ n. true) _ _ _ _ _ _ _ _ refl (stops _ _ _)))

link_box_copies_example :
    (concat ((1 ∷ 2 ∷ []) ∷ (3 ∷ []) ∷ []) ++ [] ≡ ◌++◌ {A = ℕ} (concat []) (1 ∷ 2 ∷ 3 ∷ []))
    × (concat ((9 ∷ []) ∷ []) ++ [] ≡ ◌++◌ {A = ℕ} (concat []) (9 ∷ []))
link_box_copies_example =
    link_box_copies (link (1 ∷ 2 ∷ 3 ∷ []) []) (link [] ((9 ∷ []) ∷ [])) (9 ∷ []) [] []
      ((1 ∷ 2 ∷ []) ∷ (3 ∷ []) ∷ []) refl refl copied
