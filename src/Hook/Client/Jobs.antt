-- ===== src/Hook/Client/Jobs.antt =====
-- What the client of the hook tool starts.
use go_cfc.Base.{
  ◌≡◌, inl, inr, refl, sym, ap, ◌∙◌, Bool, true, false, not, Option, none, some, List, [], ◌∷◌,
  ◌++◌, String, if◌then◌else◌, ◌&&◌, Bool-cases, Option-cases,
}
use mathlib.Core.List.{append_assoc, append-nil}
use go_cfc.Base.Int.{ℤ}
use go_cfc.Loger.{Logger, is_logged, log_level_error}
use go_cfc.Hook.Config.{ProxyTcpServerConfig, ProxyTcpClientConfig, CfcHookConfig, set_logger}
use go_cfc.Hook.Client.{
  BoxContext, Job, serve, link, listen, is_empty, failed, serve_loop, listen_loop,
  handle_proxy_tcp_server, handle_proxy_tcp_client, handle_proxy_tcp, duration, new_context,
  run_client,
}

-- The jobs that a config asks for.
abbrev pub serve_jobs : (String → Option String) → List ProxyTcpServerConfig → List Job
serve_jobs resolve [] = []
serve_jobs resolve (info ∷ infos) =
    serve info (resolve info.server_dial_addr) ∷ serve_jobs resolve infos

abbrev pub listen_jobs : (String → Option String) → List ProxyTcpClientConfig → List Job
listen_jobs resolve [] = []
listen_jobs resolve (info ∷ infos) =
    listen info (resolve info.client_listen_addr) ∷ listen_jobs resolve infos

abbrev pub link_jobs : String → List ProxyTcpClientConfig → List Job
link_jobs id infos = if is_empty infos then [] else link id ∷ []

-- Whether every address resolves.
abbrev pub all_dialled : (String → Option String) → List ProxyTcpServerConfig → Bool
all_dialled resolve [] = true
all_dialled resolve (info ∷ infos) =
    not (failed (resolve info.server_dial_addr)) && all_dialled resolve infos

abbrev pub all_listened : (String → Option String) → List ProxyTcpClientConfig → Bool
all_listened resolve [] = true
all_listened resolve (info ∷ infos) =
    not (failed (resolve info.client_listen_addr)) && all_listened resolve infos

module _ (l : Logger) (resolve : String → Option String)
    (logged : is_logged l log_level_error ≡ true) where
  serve_loop_lem :
      (infos : List ProxyTcpServerConfig) (jobs : List Job)
      → serve_loop l resolve infos jobs
        ≡ (if all_dialled resolve infos then some (jobs ++ serve_jobs resolve infos) else none)
  unfolding serve_loop
  serve_loop_lem [] jobs = ap some (sym (append-nil jobs))
  serve_loop_lem (info ∷ infos) jobs = elim (Option-cases (resolve info.server_dial_addr)) [
    | inl h ↦ rw (serve_loop, h, logged) refl
    | inr (a, h) ↦
        let job = serve info (some a) in
        rw (serve_loop, h)
          (serve_loop_lem infos (jobs ++ job ∷ [])
            ∙ ap (λ x. if all_dialled resolve infos then some x else none)
                (append_assoc jobs (job ∷ []) (serve_jobs resolve infos)))
  ]

  listen_loop_lem :
      (infos : List ProxyTcpClientConfig) (jobs : List Job)
      → listen_loop l resolve infos jobs
        ≡ (if all_listened resolve infos then some (jobs ++ listen_jobs resolve infos) else none)
  unfolding listen_loop
  listen_loop_lem [] jobs = ap some (sym (append-nil jobs))
  listen_loop_lem (info ∷ infos) jobs = elim (Option-cases (resolve info.client_listen_addr)) [
    | inl h ↦ rw (listen_loop, h, logged) refl
    | inr (a, h) ↦
        let job = listen info (some a) in
        rw (listen_loop, h)
          (listen_loop_lem infos (jobs ++ job ∷ [])
            ∙ ap (λ x. if all_listened resolve infos then some x else none)
                (append_assoc jobs (job ∷ []) (listen_jobs resolve infos)))
  ]

  skips_empty :
      (infos : List ProxyTcpServerConfig) (jobs : List Job)
      → (if is_empty infos then some jobs else serve_loop l resolve infos jobs)
        ≡ serve_loop l resolve infos jobs
  unfolding serve_loop
  skips_empty [] jobs = refl
  skips_empty (info ∷ infos) jobs = refl

  links_first :
      (id : String) (infos : List ProxyTcpClientConfig) (jobs : List Job)
      → (if is_empty infos then some jobs else listen_loop l resolve infos (jobs ++ link id ∷ []))
        ≡ listen_loop l resolve infos (jobs ++ link_jobs id infos)
  unfolding listen_loop
  links_first id [] jobs = ap some (sym (append-nil jobs))
  links_first id (info ∷ infos) jobs = refl

  server_jobs :
      (bc : BoxContext)
      → handle_proxy_tcp_server l resolve bc [] ≡ (
          if all_dialled resolve bc.proxy_tcp.server
          then some (serve_jobs resolve bc.proxy_tcp.server)
          else none)
  unfolding handle_proxy_tcp_server
  server_jobs bc = skips_empty bc.proxy_tcp.server [] ∙ serve_loop_lem bc.proxy_tcp.server []

  client_jobs :
      (id : String) (bc : BoxContext) (jobs : List Job)
      → handle_proxy_tcp_client l resolve id bc jobs ≡ (
          if all_listened resolve bc.proxy_tcp.client
          then some (
              jobs ++ (link_jobs id bc.proxy_tcp.client ++ listen_jobs resolve bc.proxy_tcp.client))
          else none)
  unfolding handle_proxy_tcp_client
  client_jobs id bc jobs =
      links_first id bc.proxy_tcp.client jobs
      ∙ listen_loop_lem bc.proxy_tcp.client (jobs ++ link_jobs id bc.proxy_tcp.client)
      ∙ ap (λ x. if all_listened resolve bc.proxy_tcp.client then some x else none)
          (append_assoc jobs (link_jobs id bc.proxy_tcp.client)
            (listen_jobs resolve bc.proxy_tcp.client))

  -- What handleProxyTcp comes to when there is something to do.
  handled :
      (id : String) (bc : BoxContext)
      → (is_empty bc.proxy_tcp.server && is_empty bc.proxy_tcp.client) ≡ false
      → handle_proxy_tcp l resolve id bc ≡ (
          if all_dialled resolve bc.proxy_tcp.server && all_listened resolve bc.proxy_tcp.client
          then some (
            record bc { has_work = true },
            serve_jobs resolve bc.proxy_tcp.server
                ++ (link_jobs id bc.proxy_tcp.client ++ listen_jobs resolve bc.proxy_tcp.client),
          )
          else none)
  unfolding handle_proxy_tcp
  handled id bc work = elim (Bool-cases (all_dialled resolve bc.proxy_tcp.server)) [
    | inr h ↦ rw (handle_proxy_tcp, work, server_jobs bc, h) refl
    | inl h ↦ elim (Bool-cases (all_listened resolve bc.proxy_tcp.client)) [
      | inr k ↦
          rw
            (
              handle_proxy_tcp,
              work,
              server_jobs bc,
              h,
              client_jobs id bc (serve_jobs resolve bc.proxy_tcp.server),
              k,
            )
            refl
      | inl k ↦
          rw
            (
              handle_proxy_tcp,
              work,
              server_jobs bc,
              h,
              client_jobs id bc (serve_jobs resolve bc.proxy_tcp.server),
              k,
            )
            refl
    ]
  ]

-- What a config needs: a time to link again that is read or left out, something to do, and addresses
-- that resolve.
abbrev pub is_ready : (String → Option ℤ) → (String → Option String) → CfcHookConfig → Bool
is_ready parse resolve c =
    not (duration parse c.setting.re_link_time).1
    && (not (is_empty c.proxy_tcp.server && is_empty c.proxy_tcp.client)
        && (all_dialled resolve c.proxy_tcp.server && all_listened resolve c.proxy_tcp.client))

-- With a logger that writes errors at the level of the config, runClient goes on to wait for its end
-- exactly if the config is ready: then it has started one job for each server, in their order, and if
-- there are clients, the one that links them and one for each. Otherwise it panics.
pub run_client_lem :
    (l : Logger) (parse : String → Option ℤ) (resolve : String → Option String) (id : String)
    (c : CfcHookConfig)
    → is_logged (set_logger c.setting l) log_level_error ≡ true
    → run_client l parse resolve id c ≡ (
        if is_ready parse resolve c
        then some (
          record (new_context parse c) { has_work = true },
          serve_jobs resolve c.proxy_tcp.server
              ++ (link_jobs id c.proxy_tcp.client ++ listen_jobs resolve c.proxy_tcp.client),
        )
        else none)
unfolding run_client handle_proxy_tcp new_context
run_client_lem l parse resolve id c logged =
    let l1 = set_logger c.setting l in
    let bc = new_context parse c in
    elim (Bool-cases (duration parse c.setting.re_link_time).1) [
      | inl bad ↦ rw (run_client, bad, logged) refl
      | inr good ↦ elim (Bool-cases (is_empty c.proxy_tcp.server && is_empty c.proxy_tcp.client)) [
        | inl idle ↦ rw (run_client, good, idle, logged) refl
        | inr work ↦
            elim (Bool-cases
              (all_dialled resolve c.proxy_tcp.server && all_listened resolve c.proxy_tcp.client)) [
                | inl h ↦ rw (run_client, good, handled l1 resolve logged id bc work, work, h) refl
                | inr h ↦ rw (run_client, good, handled l1 resolve logged id bc work, work, h) refl
              ]
      ]
    ]
