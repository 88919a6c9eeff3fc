-- ===== src/Hook/Build/Errors.antt =====
-- Which errors end the build.
use go_cfc.Base.{
  ◌≡◌, inl, inr, refl, ap, ◌∙◌, Bool, true, false, List, [], ◌∷◌, ◌++◌, Bytes, if◌then◌else◌, codes,
  ◌&&◌, Bool-cases,
}
use go_cfc.Wire.Cipher.{same_bytes}
use go_cfc.Hook.Build.{
  Act, stat, mkdir, read_file, write_file, set_env, build, chmod, Building, checked, unchecked,
  clean_go_env, make_bin, make_bins, make_all_bin, make_dirs, make_all_dirs, check_file,
  make_config, make_all,
}

module _ (ok : Act → Bool) where
  -- Whether the program goes on after a call: always after a build of the client.
  abbrev pub passes : Act → Bool
  passes (build source out) =
      if same_bytes source (codes "./client/client.go") then true else ok (build source out)
  passes a = ok a

  abbrev pub all_pass : List Act → Bool
  all_pass [] = true
  all_pass (a ∷ acts) = passes a && all_pass acts

  and_right : (b : Bool) → b ≡ (b && true)
  and_right true = refl
  and_right false = refl

  all_pass-snoc :
      (acts : List Act) (a : Act) → all_pass (acts ++ a ∷ []) ≡ (all_pass acts && passes a)
  all_pass-snoc [] a = by_last (passes a)
    where
      by_last : (b : Bool) → (b && true) ≡ b
      by_last true = refl
      by_last false = refl
  all_pass-snoc (x ∷ acts) a = ap (λ b. passes x && b) (all_pass-snoc acts a) ∙ by_first (passes x)
    where
      by_first :
          (b : Bool) → (b && (all_pass acts && passes a)) ≡ ((b && all_pass acts) && passes a)
      by_first true = refl
      by_first false = refl

  -- The program still runs exactly if all its calls have passed.
  abbrev Exact : Building → Type 0
  Exact b = b.running ≡ all_pass b.acts

  checked-Exact : (a : Act) (b : Building) → passes a ≡ ok a → Exact b → Exact (checked ok a b)
  unfolding checked
  checked-Exact a b same h = elim (Bool-cases b.running) [
    | inl on ↦ rw on (let e = all_pass-snoc b.acts a in cc)
    | inr off ↦ rw off (let e : false ≡ all_pass b.acts = cc in e)
  ]

  unchecked-Exact : (a : Act) (b : Building) → passes a ≡ true → Exact b → Exact (unchecked ok a b)
  unfolding unchecked
  unchecked-Exact a b same h = elim (Bool-cases b.running) [
    | inl on ↦ rw on (let e = all_pass-snoc b.acts a in let f = and_right (all_pass b.acts) in cc)
    | inr off ↦ rw off (let e : false ≡ all_pass b.acts = cc in e)
  ]

  clean_go_env-Exact :
      (env : List (Bytes × Bytes)) (b : Building) → Exact b → Exact (clean_go_env ok env b)
  unfolding clean_go_env
  clean_go_env-Exact [] b h = h
  clean_go_env-Exact ((key, value) ∷ env) b h =
      clean_go_env-Exact env (checked ok (set_env key value) b)
        (checked-Exact (set_env key value) b refl h)

  make_bin-Exact :
      (env : List (Bytes × Bytes)) (goos_of : Bytes → Bytes) (goos arch : Bytes) (b : Building)
      → Exact b
      → Exact (make_bin ok env goos_of goos arch b)
  unfolding make_bin same_bytes
  make_bin-Exact env goos_of goos arch b h = checked-Exact (chmod _) _ refl (
      unchecked-Exact (build _ _) _ refl (
        checked-Exact (chmod _) _ refl (
          checked-Exact (build _ _) _ refl (
            checked-Exact (set_env _ _) _ refl (
              checked-Exact (set_env _ _) _ refl
                (checked-Exact (set_env _ _) _ refl (clean_go_env-Exact env b h)))))))

  make_bins-Exact :
      (env : List (Bytes × Bytes)) (goos_of : Bytes → Bytes) (goos : Bytes) (archs : List Bytes)
      (b : Building)
      → Exact b
      → Exact (make_bins ok env goos_of goos archs b)
  unfolding make_bins
  make_bins-Exact env goos_of goos [] b h = h
  make_bins-Exact env goos_of goos (arch ∷ archs) b h =
      make_bins-Exact env goos_of goos archs _ (make_bin-Exact env goos_of goos arch b h)

  make_all_bin-Exact :
      (env : List (Bytes × Bytes)) (goos_of : Bytes → Bytes) (table : List (Bytes × List Bytes))
      (b : Building)
      → Exact b
      → Exact (make_all_bin ok env goos_of table b)
  unfolding make_all_bin
  make_all_bin-Exact env goos_of [] b h = h
  make_all_bin-Exact env goos_of ((goos, archs) ∷ table) b h =
      make_all_bin-Exact env goos_of table _ (make_bins-Exact env goos_of goos archs b h)

  make_dirs-Exact :
      (goos : Bytes) (archs : List Bytes) (b : Building)
      → Exact b
      → Exact (make_dirs ok goos archs b)
  unfolding make_dirs
  make_dirs-Exact goos [] b h = h
  make_dirs-Exact goos (arch ∷ archs) b h =
      make_dirs-Exact goos archs _ (checked-Exact (mkdir _) b refl h)

  make_all_dirs-Exact :
      (table : List (Bytes × List Bytes)) (b : Building)
      → Exact b
      → Exact (make_all_dirs ok table b)
  unfolding make_all_dirs
  make_all_dirs-Exact [] b h = h
  make_all_dirs-Exact ((goos, archs) ∷ table) b h =
      make_all_dirs-Exact table _ (make_dirs-Exact goos archs b h)

  make_config-Exact :
      (configs : List (Bytes × Bytes)) (b : Building) → Exact b → Exact (make_config ok configs b)
  unfolding make_config
  make_config-Exact [] b h = h
  make_config-Exact ((key, value) ∷ rest) b h = make_config-Exact rest _ (
      checked-Exact (write_file _ _) _ refl
        (checked-Exact (mkdir _) _ refl (checked-Exact (read_file _) b refl h)))

  check_file-Exact :
      (table : List (Bytes × List Bytes)) (b : Building) → Exact b → Exact (check_file ok table b)
  unfolding check_file
  check_file-Exact table b h =
      let b1 = checked ok (stat (codes "./client/client.go")) b in
      let b2 = checked ok (stat (codes "./server/server.go")) b1 in
      let b3 = checked ok (stat (codes "./config/configCN_M.json")) b2 in
      make_all_dirs-Exact table _ (
        checked-Exact (stat (codes "./config/configEN_M.json")) b3 refl (
          checked-Exact (stat (codes "./config/configCN_M.json")) b2 refl (
            checked-Exact (stat (codes "./server/server.go")) b1 refl
              (checked-Exact (stat (codes "./client/client.go")) b refl h))))

  -- Whatever calls fail, for any tables of systems and of configs: the program that builds the tools
  -- runs to its end exactly if every call that it has made succeeded, not counting the builds of
  -- the client, whose errors are never noticed.
  pub make_all_lem :
      (env : List (Bytes × Bytes)) (goos_of : Bytes → Bytes) (table : List (Bytes × List Bytes))
      (configs : List (Bytes × Bytes))
      → let b = make_all ok env goos_of table configs in b.running ≡ all_pass b.acts
  unfolding make_all
  make_all_lem env goos_of table configs = make_all_bin-Exact env goos_of table _ (
      make_config-Exact configs _
        (check_file-Exact table (record { acts = []; running = true }) refl))
