-- ===== src/Closer.antt =====
-- tool/cc.go and tool/cw.go: what is closed once, with the functions that are run then. Such a
-- function is a number, and the list `ran` is the calls so far. None of them uses the closer.
pub mod Once
use go_cfc.Base.{ℕ, Bool, true, false, Option, none, some, List, [], ◌∷◌, ◌++◌, if◌then◌else◌}

pub record CtxCloser : Type 0 where
  -- whether `closer` has been used
  pub once : Bool
  pub is_closed : Bool
  -- whether the context is done, by its own parent or by Close
  pub ctx_done : Bool
  pub close_fn_list : List ℕ
  pub ran : List ℕ

-- NewCtxCloser of a context that is done or not.
unfoldable pub new_ctx_closer : Bool → CtxCloser
new_ctx_closer ctx_done = record {
  once = false;
  is_closed = false;
  ctx_done = ctx_done;
  close_fn_list = [];
  ran = [];
}

unfoldable pub add_close_fn : ℕ → CtxCloser → CtxCloser
add_close_fn fn cc = record cc { close_fn_list = cc.close_fn_list ++ fn ∷ [] }

unfoldable pub run_all : List ℕ → CtxCloser → CtxCloser
run_all [] cc = cc
run_all (one ∷ fns) cc = run_all fns (record cc { ran = cc.ran ++ one ∷ [] })

unfoldable pub close_ctx : CtxCloser → CtxCloser
close_ctx cc =
    if cc.once
    then cc
    else run_all cc.close_fn_list (record cc { once = true; is_closed = true; ctx_done = true })

unfoldable pub check_done : CtxCloser → Bool × CtxCloser
check_done cc = let s = if cc.ctx_done then close_ctx cc else cc in (s.is_closed, s)

-- `E` is what an error is; the channel `stop` holds one.
pub record CloseWaiter (E : Type 0) : Type 0 where
  pub stop : Option (Option E)
  pub once : Bool
  pub close_fn_list : List ℕ
  pub ran : List ℕ

module _ {E : Type 0} where
  unfoldable pub new_close_waiter : CloseWaiter E
  new_close_waiter = record { stop = none; once = false; close_fn_list = []; ran = [] }

  unfoldable pub add_waiter_fn : ℕ → CloseWaiter E → CloseWaiter E
  add_waiter_fn fn cw = record cw { close_fn_list = cw.close_fn_list ++ fn ∷ [] }

  unfoldable pub run_waiter : List ℕ → CloseWaiter E → CloseWaiter E
  run_waiter [] cw = cw
  run_waiter (one ∷ fns) cw = run_waiter fns (record cw { ran = cw.ran ++ one ∷ [] })

  -- The send cannot block: nothing else sends, and the channel has room for one.
  unfoldable pub close_waiter : Option E → CloseWaiter E → CloseWaiter E
  close_waiter e cw =
      if cw.once
      then cw
      else record (run_waiter cw.close_fn_list (record cw { once = true })) { stop = some e }

  -- `none` is a call that waits.
  unfoldable pub wait_close : CloseWaiter E → Option (Option E × CloseWaiter E)
  wait_close cw = elim cw.stop [ none ↦ none | some e ↦ some (e, record cw { stop = none }) ]
