-- ===== src/Hook/Build.antt =====
-- How the tools are built: _hook-tcp/main.go. A step calls the system or the go command, and an
-- error that errCheck gets ends the program, where the logger writes errors.
pub mod Errors
use go_cfc.Base.{Bool, true, false, List, [], ◌∷◌, ◌++◌, Bytes, if◌then◌else◌, codes, ◌||◌}
use go_cfc.Wire.Cipher.{same_bytes}

-- The calls that can fail.
pub data Act : Type 0 where
  stat : Bytes → Act
  mkdir : Bytes → Act
  read_file : Bytes → Act
  write_file : (from to : Bytes) → Act
  set_env : (key value : Bytes) → Act
  -- go build of a source to a path, in the environment that was set
  build : (source out : Bytes) → Act
  chmod : Bytes → Act

-- getOutPath
unfoldable pub get_out_path : (goos arch : Bytes) → Bool → Bytes
get_out_path goos arch is_server =
    let name = goos ++ (codes "-" ++ arch) in
    let out =
      if is_server
      then codes "./asset/" ++ (name ++ (codes "/cfc_hook_server_" ++ name))
      else codes "./asset/" ++ (name ++ (codes "/cfc_hook_client_" ++ name)) in
    if same_bytes goos (codes "win") || same_bytes goos (codes "windows")
    then out ++ codes ".exe"
    else out

-- goGoosMap, where a missing key gives the empty text, and goGoArchMap.
unfoldable pub go_goos_map : Bytes → Bytes
go_goos_map goos =
    if same_bytes goos (codes "win")
    then codes "windows"
    else if same_bytes goos (codes "mac")
    then codes "darwin"
    else if same_bytes goos (codes "linux")
    then codes "linux"
    else []

abbrev pub go_go_arch_map : List (Bytes × List Bytes)
go_go_arch_map =
    (codes "linux", codes "386" ∷ codes "amd64" ∷ codes "arm64" ∷ codes "arm" ∷ [])
    ∷ (codes "mac", codes "amd64" ∷ codes "arm64" ∷ [])
    ∷ (codes "win", codes "386" ∷ codes "amd64" ∷ codes "arm64" ∷ codes "arm" ∷ [])
    ∷ []

abbrev pub config_m_map : List (Bytes × Bytes)
config_m_map = (codes "CN", codes "CN_M") ∷ (codes "EN", codes "EN_M") ∷ ([], []) ∷ []

-- The calls so far, and whether the program still runs.
pub record Building : Type 0 where
  pub acts : List Act
  pub running : Bool

module _ (ok : Act → Bool) where
  -- A call whose error goes to errCheck, and one whose error is overwritten by that of the next.
  unfoldable pub checked : Act → Building → Building
  checked a b = if b.running then record { acts = b.acts ++ a ∷ []; running = ok a } else b

  unfoldable pub unchecked : Act → Building → Building
  unchecked a b = if b.running then record b { acts = b.acts ++ a ∷ [] } else b

  -- cleanGoEnv, for the variables that goEnvMap has kept.
  unfoldable pub clean_go_env : List (Bytes × Bytes) → Building → Building
  unfolding checked
  clean_go_env [] b = b
  clean_go_env ((key, value) ∷ env) b = clean_go_env env (checked (set_env key value) b)

  -- makeBin; `goos_of` is goGoosMap.
  unfoldable pub make_bin :
      List (Bytes × Bytes) → (goos_of : Bytes → Bytes) → (goos arch : Bytes) → Building → Building
  unfolding clean_go_env get_out_path checked unchecked
  make_bin env goos_of goos arch b =
      let b1 = clean_go_env env b in
      let b2 = checked (set_env (codes "CGO_ENABLED") (codes "0")) b1 in
      let b3 = checked (set_env (codes "GOOS") (goos_of goos)) b2 in
      let b4 = checked (set_env (codes "GOARCH") arch) b3 in
      let s = get_out_path goos arch true in
      let b5 = checked (build (codes "./server/server.go") s) b4 in
      let b6 = checked (chmod s) b5 in
      let c = get_out_path goos arch false in
      let b7 = unchecked (build (codes "./client/client.go") c) b6 in checked (chmod c) b7

  -- The inner and the outer loop of makeAllBin over goGoArchMap, in any order of its entries.
  unfoldable pub make_bins :
      List (Bytes × Bytes) → (Bytes → Bytes) → Bytes → List Bytes → Building → Building
  unfolding make_bin
  make_bins env goos_of goos [] b = b
  make_bins env goos_of goos (arch ∷ archs) b =
      make_bins env goos_of goos archs (make_bin env goos_of goos arch b)

  unfoldable pub make_all_bin :
      List (Bytes × Bytes) → (Bytes → Bytes) → List (Bytes × List Bytes) → Building → Building
  unfolding make_bins
  make_all_bin env goos_of [] b = b
  make_all_bin env goos_of ((goos, archs) ∷ table) b =
      make_all_bin env goos_of table (make_bins env goos_of goos archs b)

  -- checkFile
  unfoldable pub make_dirs : Bytes → List Bytes → Building → Building
  unfolding checked
  make_dirs goos [] b = b
  make_dirs goos (arch ∷ archs) b =
      make_dirs goos archs (checked (mkdir (codes "./asset/" ++ (goos ++ (codes "-" ++ arch)))) b)

  unfoldable pub make_all_dirs : List (Bytes × List Bytes) → Building → Building
  unfolding make_dirs
  make_all_dirs [] b = b
  make_all_dirs ((goos, archs) ∷ table) b = make_all_dirs table (make_dirs goos archs b)

  unfoldable pub check_file : List (Bytes × List Bytes) → Building → Building
  unfolding make_all_dirs checked
  check_file table b =
      let b1 = checked (stat (codes "./client/client.go")) b in
      let b2 = checked (stat (codes "./server/server.go")) b1 in
      let b3 = checked (stat (codes "./config/configCN_M.json")) b2 in
      let b4 = checked (stat (codes "./config/configEN_M.json")) b3 in make_all_dirs table b4

  -- makeConfig, over the entries of configMMap.
  unfoldable pub make_config : List (Bytes × Bytes) → Building → Building
  unfolding checked
  make_config [] b = b
  make_config ((key, value) ∷ rest) b =
      let from = codes "./config/config" ++ (value ++ codes ".json") in
      let dir = codes "./asset/config" ++ key in
      let b1 = checked (read_file from) b in
      let b2 = checked (mkdir dir) b1 in
      make_config rest (checked (write_file from (dir ++ codes "/config.json")) b2)

  -- main
  unfoldable pub make_all :
      List (Bytes × Bytes)
      → (Bytes → Bytes)
      → List (Bytes × List Bytes)
      → List (Bytes × Bytes)
      → Building
  unfolding check_file make_config make_all_bin
  make_all env goos_of table configs =
      make_all_bin env goos_of table
        (make_config configs (check_file table (record { acts = []; running = true })))
