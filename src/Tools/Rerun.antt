-- ===== src/Tools/Rerun.antt =====
-- ReRun of tool/tool.go: a function is called again and again, until it says to stop.
use go_cfc.Base.{
  ℕ, zero, suc, ◌+◌, ◌<◌, ◌≤◌, ◌≡◌, refl, ap, ◌∙◌, Bool, true, false, Option, none, some, List, [],
  ◌∷◌, ◌++◌, String, str_eq, ltb, ◌==◌, if◌then◌else◌, arith,
}
use go_cfc.Base.Int.{ℤ, pos, negsuc}
use go_cfc.Speed.{second}

-- `td == 0`, and a duration that is raised to a second.
abbrev pub is_zero : ℤ → Bool
is_zero (pos n) = n == 0
is_zero (negsuc n) = false

abbrev pub at_least_second : ℤ → ℕ
at_least_second (pos n) = if ltb n second then second else n
at_least_second (negsuc n) = second

-- The loop, of which `fn i` is what call number `i` gives: the calls so far, and the sleeps.
unfoldable pub rerun_loop : ℕ → (ℕ → Bool) → ℕ → ℕ → List ℕ → Option (ℕ × List ℕ)
rerun_loop zero fn td n naps = none
rerun_loop (suc fuel) fn td n naps = elim (fn n) [
  | true ↦ rerun_loop fuel fn td (suc n) (naps ++ td ∷ [])
  | false ↦ some (suc n, naps)
]

-- ReRun, which always returns nil; `parse` is time.ParseDuration. The result is how often `fn` was
-- called, and the sleeps.
unfoldable pub re_run : (parse : String → Option ℤ) → ℕ → String → (ℕ → Bool) → Option (ℕ × List ℕ)
unfolding rerun_loop
re_run parse fuel rt fn =
    elim (if str_eq rt "" then some (pos 0) else parse rt) as (λ _. Option (ℕ × List ℕ)) [
      | none ↦ some (0, [])
      | some td ↦ if is_zero td then some (1, []) else rerun_loop fuel fn (at_least_second td) 0 []
    ]

abbrev pub repeat : ℕ → ℕ → List ℕ
repeat zero x = []
repeat (suc n) x = x ∷ repeat n x

snoc-repeat : (n x : ℕ) (xs : List ℕ) → (xs ++ x ∷ []) ++ repeat n x ≡ xs ++ repeat (suc n) x
snoc-repeat n x [] = refl
snoc-repeat n x (y ∷ xs) = ap (λ z. y ∷ z) (snoc-repeat n x xs)

append_nothing : (xs : List ℕ) → xs ≡ xs ++ []
append_nothing [] = refl
append_nothing (x ∷ xs) = ap (λ z. x ∷ z) (append_nothing xs)

rerun_loop_stops :
    (k fuel : ℕ) (fn : ℕ → Bool) (td n : ℕ) (naps : List ℕ)
    → k < fuel
    → fn (n + k) ≡ false
    → ((i : ℕ) → i < k → fn (n + i) ≡ true)
    → rerun_loop fuel fn td n naps ≡ some (suc (n + k), naps ++ repeat k td)
unfolding rerun_loop
rerun_loop_stops k zero fn td n naps lt stop go = absurd (omega arith)
rerun_loop_stops zero (suc fuel) fn td n naps lt stop go =
    let e : n + 0 ≡ n = omega arith in
    let off : fn n ≡ false = ap fn (omega arith) ∙ stop in
    rw (rerun_loop, off)
      (ap (λ x. some (suc x, naps)) (omega arith)
        ∙ ap (λ x. some (suc (n + 0), x)) (append_nothing naps))
rerun_loop_stops (suc k) (suc fuel) fn td n naps lt stop go =
    let on : fn n ≡ true = ap fn (omega arith) ∙ go 0 (omega arith) in
    rw (rerun_loop, on)
      (rerun_loop_stops k fuel fn td (suc n) (naps ++ td ∷ []) (omega arith)
          (ap fn (omega arith) ∙ stop) (λ i h. ap fn (omega arith) ∙ go (suc i) (omega arith))
        ∙ ap (λ x. some (suc x, (naps ++ td ∷ []) ++ repeat k td)) (omega arith)
        ∙ ap (λ x. some (suc (n + suc k), x)) (snoc-repeat k td naps))

rerun_loop_goes :
    (fuel : ℕ) (fn : ℕ → Bool) (td n : ℕ) (naps : List ℕ)
    → ((i : ℕ) → fn i ≡ true)
    → rerun_loop fuel fn td n naps ≡ none
unfolding rerun_loop
rerun_loop_goes zero fn td n naps go = refl
rerun_loop_goes (suc fuel) fn td n naps go =
    rw (rerun_loop, go n) (rerun_loop_goes fuel fn td (suc n) (naps ++ td ∷ []) go)

parsed_loop :
    (parse : String → Option ℤ) (fuel : ℕ) (rt : String) (fn : ℕ → Bool) (td : ℤ)
    → str_eq rt "" ≡ false
    → parse rt ≡ some td
    → is_zero td ≡ false
    → re_run parse fuel rt fn ≡ rerun_loop fuel fn (at_least_second td) 0 []
unfolding re_run
parsed_loop parse fuel rt fn td a b c = rw (re_run, a, b, c) refl

-- A duration that is read and is not zero. If the function says to stop at its call number `k` for
-- the first time, ReRun returns, with fuel for more rounds than that: the function was called k + 1
-- times, with k sleeps between the calls, each as long as the duration, and a second at least.
pub re_run_stops :
    (parse : String → Option ℤ) (k fuel : ℕ) (rt : String) (fn : ℕ → Bool) (td : ℤ)
    → str_eq rt "" ≡ false
    → parse rt ≡ some td
    → is_zero td ≡ false
    → k < fuel
    → fn k ≡ false
    → ((i : ℕ) → i < k → fn i ≡ true)
    → (re_run parse fuel rt fn ≡ some (suc k, repeat k (at_least_second td)))
      × (second ≤ at_least_second td)
re_run_stops parse k fuel rt fn td a b c lt stop go = (
  parsed_loop parse fuel rt fn td a b c
      ∙ rerun_loop_stops k fuel fn (at_least_second td) 0 [] lt (ap fn (omega arith) ∙ stop)
          (λ i h. ap fn (omega arith) ∙ go i h)
      ∙ ap (λ x. some (suc x, repeat k (at_least_second td))) (omega arith),
  long td,
)
  where
    long : (d : ℤ) → second ≤ at_least_second d
    long (pos n) = ground arith
    long (negsuc n) = omega arith

-- A function that never says to stop, with a duration that is read and is not zero, is called for
-- ever: ReRun does not return, with any fuel.
pub re_run_goes :
    (parse : String → Option ℤ) (fuel : ℕ) (rt : String) (fn : ℕ → Bool) (td : ℤ)
    → str_eq rt "" ≡ false
    → parse rt ≡ some td
    → is_zero td ≡ false
    → ((i : ℕ) → fn i ≡ true)
    → re_run parse fuel rt fn ≡ none
re_run_goes parse fuel rt fn td a b c go =
    parsed_loop parse fuel rt fn td a b c ∙ rerun_loop_goes fuel fn (at_least_second td) 0 [] go
