-- ===== src/Tools/Runs.antt =====
-- The helpers at concrete inputs.
use go_cfc.Base.{◌≤◌, ◌≡◌, refl, Option, some, String, arith, ltb}
use go_cfc.Base.Int.{ℤ, pos}
use go_cfc.Speed.{second}
use go_cfc.Tools.Rerun.{re_run, at_least_second, repeat, re_run_stops}

-- Every text is two seconds; the third call says to stop.
abbrev two_seconds : String → Option ℤ
two_seconds text = some (pos 2000000000)

re_run_stops_example :
    (re_run two_seconds 5 "2s" (λ i. ltb i 2)
      ≡ some (3, repeat 2 (at_least_second (pos 2000000000))))
    × (second ≤ at_least_second (pos 2000000000))
re_run_stops_example =
    re_run_stops two_seconds 2 5 "2s" (λ i. ltb i 2) (pos 2000000000) refl refl refl (omega arith)
      refl (λ i h. ground arith)
