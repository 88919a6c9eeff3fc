-- ===== src/Closer/Once.antt =====
-- The functions of a closer are run once, in the order in which they were added.
use mathlib.Core.List.{append_assoc, append-nil}
use go_cfc.Base.{
  ℕ, ◌≡◌, refl, sym, ap, ◌∙◌, Bool, true, false, Option, none, some, List, [], ◌∷◌, ◌++◌, arith,
}
use go_cfc.Closer.{
  CtxCloser, new_ctx_closer, add_close_fn, run_all, close_ctx, check_done, CloseWaiter,
  new_close_waiter, add_waiter_fn, run_waiter, close_waiter, wait_close,
}

pub data Op : Type 0 where
  add : ℕ → Op
  closing check : Op

abbrev pub op : Op → CtxCloser → CtxCloser
op (add fn) cc = add_close_fn fn cc
op closing cc = close_ctx cc
op check cc = (check_done cc).1

abbrev pub ops : List Op → CtxCloser → CtxCloser
ops [] cc = cc
ops (o ∷ os) cc = ops os (op o cc)

abbrev pub adds : List ℕ → CtxCloser → CtxCloser
adds [] cc = cc
adds (fn ∷ fns) cc = adds fns (add_close_fn fn cc)

run_all_lem :
    (fns : List ℕ) (cc : CtxCloser)
    → let s = run_all fns cc in
      (s.ran ≡ cc.ran ++ fns) × (s.once ≡ cc.once) × (s.is_closed ≡ cc.is_closed)
unfolding run_all
run_all_lem [] cc = (sym (append-nil cc.ran), refl, refl)
run_all_lem (one ∷ fns) cc =
    let (a, b, c) = run_all_lem fns (record cc { ran = cc.ran ++ one ∷ [] }) in
    (a ∙ append_assoc cc.ran (one ∷ []) fns, b, c)

adds_lem :
    (fns : List ℕ) (cc : CtxCloser)
    → let s = adds fns cc in
      (s.close_fn_list ≡ cc.close_fn_list ++ fns) × (s.ran ≡ cc.ran) × (s.once ≡ cc.once)
unfolding add_close_fn
adds_lem [] cc = (sym (append-nil cc.close_fn_list), refl, refl)
adds_lem (fn ∷ fns) cc =
    let (a, b, c) = adds_lem fns (add_close_fn fn cc) in
    (a ∙ append_assoc cc.close_fn_list (fn ∷ []) fns, b, c)

new_adds_lem :
    (ctx_done : Bool) (fns : List ℕ)
    → let s = adds fns (new_ctx_closer ctx_done) in
      (s.close_fn_list ≡ fns) × (s.ran ≡ []) × (s.once ≡ false)
unfolding new_ctx_closer
new_adds_lem ctx_done fns = adds_lem fns (new_ctx_closer ctx_done)

op_after :
    (o : Op) (cc : CtxCloser)
    → cc.once ≡ true
    → cc.is_closed ≡ true
    → ((op o cc).ran ≡ cc.ran) × ((op o cc).once ≡ true) × ((op o cc).is_closed ≡ true)
unfolding add_close_fn close_ctx check_done
op_after (add fn) cc h k = (refl, h, k)
op_after closing cc h k = ground arith
op_after check cc h k = ground arith

ops_after :
    (os : List Op) (cc : CtxCloser)
    → cc.once ≡ true
    → cc.is_closed ≡ true
    → ((ops os cc).ran ≡ cc.ran) × ((ops os cc).once ≡ true) × ((ops os cc).is_closed ≡ true)
ops_after [] cc h k = (refl, h, k)
ops_after (o ∷ os) cc h k =
    let (a, b, c) = op_after o cc h k in let (d, e, f) = ops_after os (op o cc) b c in (d ∙ a, e, f)

close_ctx_lem :
    (cc : CtxCloser)
    → cc.once ≡ false
    → let s = close_ctx cc in
      (s.ran ≡ cc.ran ++ cc.close_fn_list) × (s.once ≡ true) × (s.is_closed ≡ true)
unfolding close_ctx
close_ctx_lem cc h =
    rw (h, close_ctx)
      (run_all_lem cc.close_fn_list (record cc { once = true; is_closed = true; ctx_done = true }))

-- Functions are added to a new CtxCloser, it is closed, and then anything is done to it: adding
-- functions, closing, and asking whether it is done, in any order. The calls that were made are
-- those functions, each once and in the order of the additions, and it says that it is done.
pub closed_once :
    (ctx_done : Bool) (fns : List ℕ) (os : List Op)
    → let s = ops os (close_ctx (adds fns (new_ctx_closer ctx_done))) in
      (s.ran ≡ fns) × ((check_done s).0 ≡ true)
closed_once ctx_done fns os =
    let cc = adds fns (new_ctx_closer ctx_done) in
    let (a, b, c) = new_adds_lem ctx_done fns in
    let (d, e, f) = close_ctx_lem cc c in
    let (g, h, i) = ops_after os (close_ctx cc) e f in
    let (j, k, l) = op_after check (ops os (close_ctx cc)) h i in
    (g ∙ d ∙ ap (λ x. x ++ cc.close_fn_list) b ∙ a, unfold check_done in l)

module _ {E : Type 0} where
  abbrev pub waiter_adds : List ℕ → CloseWaiter E → CloseWaiter E
  waiter_adds [] cw = cw
  waiter_adds (fn ∷ fns) cw = waiter_adds fns (add_waiter_fn fn cw)

  abbrev pub closes : List (Option E) → CloseWaiter E → CloseWaiter E
  closes [] cw = cw
  closes (e ∷ es) cw = closes es (close_waiter e cw)

  run_waiter_lem :
      (fns : List ℕ) (cw : CloseWaiter E)
      → let s = run_waiter fns cw in (s.ran ≡ cw.ran ++ fns) × (s.once ≡ cw.once)
  unfolding run_waiter
  run_waiter_lem [] cw = (sym (append-nil cw.ran), refl)
  run_waiter_lem (one ∷ fns) cw =
      let (a, b) = run_waiter_lem fns (record cw { ran = cw.ran ++ one ∷ [] }) in
      (a ∙ append_assoc cw.ran (one ∷ []) fns, b)

  waiter_adds_lem :
      (fns : List ℕ) (cw : CloseWaiter E)
      → let s = waiter_adds fns cw in
        (s.close_fn_list ≡ cw.close_fn_list ++ fns) × (s.ran ≡ cw.ran) × (s.once ≡ cw.once)
  unfolding add_waiter_fn
  waiter_adds_lem [] cw = (sym (append-nil cw.close_fn_list), refl, refl)
  waiter_adds_lem (fn ∷ fns) cw =
      let (a, b, c) = waiter_adds_lem fns (add_waiter_fn fn cw) in
      (a ∙ append_assoc cw.close_fn_list (fn ∷ []) fns, b, c)

new_waiter_adds_lem :
    (E : Type 0) (fns : List ℕ)
    → let s = waiter_adds fns (new_close_waiter {E = E}) in
      (s.close_fn_list ≡ fns) × (s.ran ≡ []) × (s.once ≡ false)
unfolding new_close_waiter
new_waiter_adds_lem E fns = waiter_adds_lem fns (new_close_waiter {E = E})

module _ {E : Type 0} where
  close_waiter_lem :
      (e : Option E) (cw : CloseWaiter E)
      → cw.once ≡ false
      → let s = close_waiter e cw in
        (s.ran ≡ cw.ran ++ cw.close_fn_list) × (s.once ≡ true) × (s.stop ≡ some e)
  unfolding close_waiter
  close_waiter_lem e cw h =
      let (a, b) = run_waiter_lem cw.close_fn_list (record cw { once = true }) in
      rw (h, close_waiter) (a, b, refl)

  closes_after : (es : List (Option E)) (cw : CloseWaiter E) → cw.once ≡ true → closes es cw ≡ cw
  unfolding close_waiter
  closes_after [] cw h = refl
  closes_after (e ∷ es) cw h =
      let same : close_waiter e cw ≡ cw = ground arith in ap (closes es) same ∙ closes_after es cw h

  -- Functions are added to a new CloseWaiter, and it is closed with an error (or with nil) and
  -- then any number of times again. The first Close runs the functions, each once and in order,
  -- and the others do nothing: Wait returns the error of the first one, and if it is called again
  -- it waits forever, as another Close does not change that.
  pub wait-first_close :
      (fns : List ℕ) (e : Option E) (es ds : List (Option E))
      → let s = closes es (close_waiter e (waiter_adds fns new_close_waiter)) in
        (s.ran ≡ fns)
        × ((t : CloseWaiter E) × (wait_close s ≡ some (e, t)) × (wait_close (closes ds t) ≡ none))
  wait-first_close fns e es ds =
      let cw = waiter_adds fns new_close_waiter in
      let (a, b, c) = new_waiter_adds_lem E fns in
      let (d, f, g) = close_waiter_lem e cw c in
      let s1 = close_waiter e cw in
      rw (closes_after es s1 f) (
        d ∙ ap (λ x. x ++ cw.close_fn_list) b ∙ a,
        (
          record s1 { stop = none },
          unfold wait_close in ground arith,
          (rw (closes_after ds (record s1 { stop = none }) f) (unfold wait_close in refl)),
        ),
      )
