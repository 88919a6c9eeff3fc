-- ===== src/Hook/Client.antt =====
-- The client of the hook tool: _hook-tcp/client/client.go. The goroutines that it starts are jobs;
-- a conn is the address of its other side.
pub mod Jobs
use go_cfc.Base.{
  ℕ, Bool, true, false, not, Option, none, some, List, [], ◌∷◌, ◌++◌, String, if◌then◌else◌, ◌&&◌,
  str_eq,
}
use go_cfc.Base.Int.{ℤ, pos}
use go_cfc.Loger.{Logger}
use go_cfc.Tools.Rerun.{rerun_loop, is_zero, at_least_second}
use go_cfc.Server.State.{World}
use go_cfc.Client.Errors.{Answer, Try, fine, fault, Replies}
use go_cfc.Client.State.{DeviceBox}
use go_cfc.Client.Boxes.{close_sub}
use go_cfc.Client.Opening.{get_sub_box}
use go_cfc.Hook.Config.{
  ProxyServerHostConfig, ProxyTcpServerConfig, ProxyTcpClientConfig, ProxyTcp, CfcHookConfig,
  set_logger, log_error,
}

pub record BoxContext : Type 0 where
  pub proxy_host : ProxyServerHostConfig
  pub proxy_tcp : ProxyTcp
  pub re_link_time : ℤ
  pub has_work : Bool

-- A goroutine that links as a server, with the address to dial; the one that links as a client; and
-- one that listens at an address.
pub data Job : Type 0 where
  serve : ProxyTcpServerConfig → Option String → Job
  link : String → Job
  listen : ProxyTcpClientConfig → Option String → Job

-- `len(list) == 0`
abbrev pub is_empty {ℓ} : {A : Type ℓ} → List A → Bool
is_empty [] = true
is_empty (x ∷ xs) = false

abbrev pub failed : Option String → Bool
failed none = true
failed (some a) = false

module _ (l : Logger) (resolve : String → Option String) where
  -- The loops of handleProxyTcpServer and handleProxyTcpClient: `jobs` has what was started so far.
  -- An address that does not resolve is nil, if the error did not panic (`none`).
  unfoldable pub serve_loop : List ProxyTcpServerConfig → List Job → Option (List Job)
  serve_loop [] jobs = some jobs
  serve_loop (info ∷ infos) jobs =
      let addr = resolve info.server_dial_addr in
      log_error l (failed addr) (serve_loop infos (jobs ++ serve info addr ∷ []))

  unfoldable pub listen_loop : List ProxyTcpClientConfig → List Job → Option (List Job)
  listen_loop [] jobs = some jobs
  listen_loop (info ∷ infos) jobs =
      let addr = resolve info.client_listen_addr in
      log_error l (failed addr) (listen_loop infos (jobs ++ listen info addr ∷ []))

  unfoldable pub handle_proxy_tcp_server : BoxContext → List Job → Option (List Job)
  unfolding serve_loop
  handle_proxy_tcp_server bc jobs =
      if is_empty bc.proxy_tcp.server then some jobs else serve_loop bc.proxy_tcp.server jobs

  -- `id` is what NewId(2) gives.
  unfoldable pub handle_proxy_tcp_client : String → BoxContext → List Job → Option (List Job)
  unfolding listen_loop
  handle_proxy_tcp_client id bc jobs =
      if is_empty bc.proxy_tcp.client
      then some jobs
      else listen_loop bc.proxy_tcp.client (jobs ++ link id ∷ [])

  unfoldable pub handle_proxy_tcp : String → BoxContext → Option (BoxContext × List Job)
  unfolding handle_proxy_tcp_server handle_proxy_tcp_client
  handle_proxy_tcp id bc =
      if is_empty bc.proxy_tcp.server && is_empty bc.proxy_tcp.client
      then some (bc, [])
      else elim (handle_proxy_tcp_server bc []) [
        | none ↦ none
        | some jobs ↦ elim (handle_proxy_tcp_client id bc jobs) [
          | none ↦ none
          | some all ↦ some (record bc { has_work = true }, all)
        ]
      ]

-- time.ParseDuration of a text that is not empty gives 0 with its error.
abbrev pub duration : (parse : String → Option ℤ) → String → ℤ × Bool
duration parse rt =
    if str_eq rt ""
    then (pos 0, false)
    else elim (parse rt) as (λ _. ℤ × Bool) [ none ↦ (pos 0, true) | some td ↦ (td, false) ]

-- The context of runClient.
unfoldable pub new_context : (parse : String → Option ℤ) → CfcHookConfig → BoxContext
new_context parse c = record {
  proxy_host = c.proxy_server_host;
  proxy_tcp = c.proxy_tcp;
  re_link_time = (duration parse c.setting.re_link_time).0;
  has_work = false;
}

-- runClient after the config is read, until it waits for a signal; `none` is a panic.
unfoldable pub run_client :
    Logger
    → (parse : String → Option ℤ) → (resolve : String → Option String) → (id : String)
    → CfcHookConfig
    → Option (BoxContext × List Job)
unfolding set_logger new_context handle_proxy_tcp
run_client l0 parse resolve id c =
    let l = set_logger c.setting l0 in
    log_error l (duration parse c.setting.re_link_time).1
      (elim (handle_proxy_tcp l resolve id (new_context parse c)) [
        | none ↦ none
        | some (bc, jobs) ↦ log_error l (not bc.has_work) (some (bc, jobs))
      ])

-- reLink: how often its function has been called when it returns.
unfoldable pub re_link : ℕ → ℤ → Option ℕ
unfolding rerun_loop
re_link fuel td =
    if is_zero td then some 1 else elim (rerun_loop fuel (λ _. true) (at_least_second td) 0 []) [
      | none ↦ none
      | some (n, naps) ↦ some n
    ]

-- What becomes of a sub box and a conn: closed at once, or copied from one to the other.
pub data Carried : Type 0 where
  dropped : Carried
  copied : (conn : String) → Carried

-- The function that the server's goroutine gives to ListenSubBox: what is done with a sub box, where
-- `dial` is net.DialTCP. A sub box with a ProxyCryptoKey is closed.
unfoldable pub on_sub :
    ProxyTcpServerConfig → (dial : Option String → Option String) → Option String → Carried
on_sub info dial addr =
    if not (str_eq info.proxy_crypto_key "")
    then dropped
    else elim (dial addr) [ none ↦ dropped | some conn ↦ copied conn ]

-- The variable `box` of the client after a call of LinkProxyServer.
unfoldable pub held : Try DeviceBox → Option DeviceBox
held (fault e) = none
held (fine box) = some box

module _ (r : Replies) where
  -- `fn2` of handleProxyTcpClient over `fn`, for a conn that was accepted.
  unfoldable pub on_conn :
      World
      → (a b : Answer r.D) → ProxyTcpClientConfig
      → (conn : String) → Option DeviceBox
      → Carried × Option DeviceBox
  unfolding get_sub_box
  on_conn w a b info conn box =
      if not (str_eq info.proxy_crypto_key "") then (dropped, box) else elim box [
        | none ↦ (dropped, none)
        | some bx ↦
            let (res, bx') = get_sub_box r w a b bx in
            elim res [ fault e ↦ (dropped, some bx') | fine q ↦ (copied conn, some bx') ]
      ]
