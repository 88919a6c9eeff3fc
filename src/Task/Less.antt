-- ===== src/Task/Less.antt =====
-- The changes of a context after which a callback is still there wherever there was one.
use go_cfc.Base.{
  ℕ, suc, ◌≡◌, ◌≢◌, refl, ◌∙◌, Bool, Option, none, some, List, [], ◌∷◌, ◌++◌, String, arith,
  if◌then◌else◌, Bytes, inl, inr, Option-cases, Bool-cases, subst,
}
use go_cfc.Base.Assoc.{lookup, lookup-delete}
use go_cfc.Task.{
  TaskError, timed_out, TaskCbContext, set_keep, get_task, get_task_and_run, send, resume,
  over_task, Select, wait_cb, keep_wait_cb, on_timeout, on_wait, on_stop, leave, change,
  write_parts,
}

module _ {M : Type 0} where
  unfoldable pub Callable : TaskCbContext M → Type 0
  Callable s = (key : String) (i : ℕ) → lookup key s.task_map ≡ some i → (s.tasks i).cb ≢ none

  -- `t` has the callbacks of `s`, and at most its map.
  pub record Less (s t : TaskCbContext M) : Type 0 where
    pub callback : (i : ℕ) → (t.tasks i).cb ≡ (s.tasks i).cb
    pub entries :
        (key : String) (i : ℕ) → lookup key t.task_map ≡ some i → lookup key s.task_map ≡ some i

  pub Less-Callable : {s t : TaskCbContext M} → Less s t → Callable s → Callable t
  unfolding Callable
  Less-Callable l c key i e = ground (arith, c key i (l.entries key i e), l.callback i)

  pub Less-trans : {s t u : TaskCbContext M} → Less s t → Less t u → Less s u
  Less-trans a b = record {
    callback = λ i. b.callback i ∙ a.callback i;
    entries = λ key i e. a.entries key i (b.entries key i e);
  }

  pub Less-refl : {s : TaskCbContext M} → Less s s
  Less-refl = record { callback = λ i. refl; entries = λ key i e. e }

  pub emptied : (i : ℕ) (s : TaskCbContext M) → Less s (change i (λ t. record t { wait = none }) s)
  unfolding change
  emptied i s = record { callback = λ j. ground arith; entries = λ key j e. e }

  pub stopped : (i : ℕ) (s : TaskCbContext M) → Less s (change i (λ t. record t { stop = none }) s)
  unfolding change
  stopped i s = record { callback = λ j. ground arith; entries = λ key j e. e }

  pub over_task-Less :
      (i : ℕ) (e : Option TaskError) (s : TaskCbContext M) → Less s (over_task i e s)
  unfolding over_task change
  over_task-Less i e s = record {
    callback = λ j. ground arith;
    entries = λ key j h. ground (arith, lookup-delete (s.tasks i).id key s.task_map);
  }

  pub leave-Less : (i : ℕ) (e : Option TaskError) (s : TaskCbContext M) → Less s (leave i e s).1
  unfolding leave
  leave-Less i none s = Less-refl
  leave-Less i (some e) s = over_task-Less i none s

  pub send-Less : (i : ℕ) (e : Option TaskError) (s : TaskCbContext M) → Less s (send i e s)
  unfolding send change
  send-Less i e s = elim (Option-cases (s.tasks i).wait) [
    | inl h ↦ record { callback = λ j. ground arith; entries = λ key j g. ground arith }
    | inr (x, h) ↦ record { callback = λ j. ground arith; entries = λ key j g. ground arith }
  ]

  pub get_task-Less : (key : String) (s : TaskCbContext M) → Less s (get_task key s).1
  unfolding get_task
  get_task-Less key s = record {
    callback = λ j. ground arith;
    entries = λ k j h. ground (arith, lookup-delete key k s.task_map);
  }

  pub write_parts-Less :
      (outcome : ℕ → Option TaskError) (n : ℕ) (parts : List Bytes) (s : TaskCbContext M)
      → Less s (write_parts outcome n parts s).1
  unfolding write_parts
  write_parts-Less outcome n [] s = Less-refl
  write_parts-Less outcome n (one ∷ parts) s = elim (Option-cases (outcome n)) [
    | inl h ↦
        rw (h, write_parts)
          (Less-trans (record { callback = λ i. refl; entries = λ key i e. e })
            (write_parts-Less outcome (suc n) parts (record s { written = s.written ++ one ∷ [] })))
    | inr (x, h) ↦ rw (h, write_parts) Less-refl
  ]

  pub run-Less :
      (id : String) (m : M) (s t : TaskCbContext M) → get_task_and_run id m s ≡ some t → Less s t
  unfolding get_task_and_run
  run-Less id m s t e =
      let s1 = (get_task id s).1 in
      elim (Option-cases (get_task id s).0) [
        | inl h ↦
            let less : Less s1
                (if s1.has_no_cb then record s1 { no_cb = s1.no_cb ++ m ∷ [] } else s1) =
              record { callback = λ j. ground arith; entries = λ key j g. ground arith } in
            let same : (if s1.has_no_cb then record s1 { no_cb = s1.no_cb ++ m ∷ [] } else s1) ≡ t =
              ground arith in
            subst (Less s) same (Less-trans (get_task-Less id s) less)
        | inr (i, h) ↦ elim (Bool-cases (s1.tasks i).disable) [
          | inl g ↦ let same : s1 ≡ t = ground arith in subst (Less s) same (get_task-Less id s)
          | inr g ↦ elim (Option-cases (s1.tasks i).cb) [
            | inl f ↦ let no : ⊥ = ground arith in absurd no
            | inr (cb, f) ↦
                let same : send i (cb m) s1 ≡ t = ground arith in
                subst (Less s) same (Less-trans (get_task-Less id s) (send-Less i (cb m) s1))
          ]
        ]
      ]

  pub wait_cb-Less :
      (i : ℕ) (on : Select) (e : Option TaskError) (s t : TaskCbContext M)
      → wait_cb i on s ≡ some (e, t)
      → Less s t
  unfolding wait_cb
  wait_cb-Less i on_timeout e s t h =
      let same : (leave i (some timed_out) s).1 ≡ t = ground arith in
      subst (Less s) same (leave-Less i (some timed_out) s)
  wait_cb-Less i on_wait e s t h = elim (Option-cases (s.tasks i).wait) [
    | inl g ↦ let no : ⊥ = ground arith in absurd no
    | inr (x, g) ↦
        let u = change i (λ c. record c { wait = none }) s in
        let same : (leave i x u).1 ≡ t = ground arith in
        subst (Less s) same (Less-trans (emptied i s) (leave-Less i x u))
  ]
  wait_cb-Less i on_stop e s t h = elim (Option-cases (s.tasks i).stop) [
    | inl g ↦ let no : ⊥ = ground arith in absurd no
    | inr (x, g) ↦
        let same : change i (λ c. record c { stop = none }) s ≡ t = ground arith in
        subst (Less s) same (stopped i s)
  ]

  pub keep_wait_cb-Less :
      (i : ℕ) (on : Select) (e : Option (Option TaskError)) (s t : TaskCbContext M)
      → keep_wait_cb i on s ≡ some (e, t)
      → Less s t
  unfolding keep_wait_cb
  keep_wait_cb-Less i on_timeout e s t h =
      let same : (leave i (some timed_out) s).1 ≡ t = ground arith in
      subst (Less s) same (leave-Less i (some timed_out) s)
  keep_wait_cb-Less i on_wait e s t h =
      let u = change i (λ c. record c { wait = none }) s in
      elim (Option-cases (s.tasks i).wait) [
        | inl g ↦ let no : ⊥ = ground arith in absurd no
        | inr (none, g) ↦ let same : u ≡ t = ground arith in subst (Less s) same (emptied i s)
        | inr (some x, g) ↦
            let same : (leave i (some x) u).1 ≡ t = ground arith in
            subst (Less s) same (Less-trans (emptied i s) (leave-Less i (some x) u))
      ]
  keep_wait_cb-Less i on_stop e s t h = elim (Option-cases (s.tasks i).stop) [
    | inl g ↦ let no : ⊥ = ground arith in absurd no
    | inr (x, g) ↦
        let u = change i (λ c. record c { stop = none }) s in
        let same : (leave i x u).1 ≡ t = ground arith in
        subst (Less s) same (Less-trans (stopped i s) (leave-Less i x u))
  ]

  pub resume-Less : (s : TaskCbContext M) → Less s (resume s)
  unfolding resume
  resume-Less s = elim (Option-cases s.sending) [
    | inl h ↦ let same : s ≡ resume s = ground arith in subst (Less s) same Less-refl
    | inr ((i, x), h) ↦
        let u = record s { sending = none } in
        let same : send i x u ≡ resume s = ground arith in
        subst (Less s) same
          (Less-trans (record { callback = λ j. refl; entries = λ key j e. e }) (send-Less i x u))
  ]

  pub set_keep-Less : (i : ℕ) (keep : Bool) (s : TaskCbContext M) → Less s (set_keep i keep s)
  unfolding set_keep change
  set_keep-Less i keep s = record { callback = λ j. ground arith; entries = λ key j e. e }
