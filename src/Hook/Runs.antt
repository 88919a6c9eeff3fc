-- ===== src/Hook/Runs.antt =====
-- The hook tool with one server and one client, and its build where only the client does not build.
use go_cfc.Base.{
  ℕ, ltb, ◌≡◌, refl, true, false, not, Bool, Option, none, some, [], ◌∷◌, ◌++◌, String, codes,
  if◌then◌else◌,
}
use go_cfc.Base.Int.{ℤ, pos}
use go_cfc.Wire.Cipher.{same_bytes}
use go_cfc.Loger.{init, is_logged, set_logger_level, set_logger_stack}
use go_cfc.Hook.Config.{CfcHookConfig, set_logger}
use go_cfc.Server.Setup.{RawConfig}
use go_cfc.Wire.Toys.{replicate}
use go_cfc.Hook.Client.{run_client, new_context}
use go_cfc.Hook.Client.Jobs.{serve_jobs, link_jobs, listen_jobs, is_ready, run_client_lem}
use go_cfc.Hook.Build.{Act, build, go_goos_map, go_go_arch_map, config_m_map, make_all}
use go_cfc.Hook.Build.Errors.{all_pass, make_all_lem}

abbrev config : CfcHookConfig
config = record {
  proxy_server_host = record {
    proxy_server_addr = "7.7.7.7:7";
    link_proxy_key = [];
    switch_vpn_proxy = false;
    switch_link_client = true;
    switch_udp_p2p = false;
    switch_anonymity = false;
  };
  proxy_tcp = record {
    server =
        record {
          listen_proxy_name = "ann";
          server_dial_addr = "127.0.0.1:80";
          proxy_crypto_key = "";
        }
        ∷ [];
    client =
        record {
          dial_proxy_name = "ann";
          client_listen_addr = "127.0.0.1:81";
          proxy_crypto_key = "";
        }
        ∷ [];
  };
  setting = record { re_link_time = "5s"; log_level = 0; log_stack = false };
}

abbrev five_seconds : String → Option ℤ
five_seconds text = some (pos 5000000000)

abbrev resolve : String → Option String
resolve addr = some addr

-- A config with a key; net.Listen fails in the third run.
abbrev server_config : CfcHookConfig
server_config = record config {
  proxy_server_host = record config.proxy_server_host { link_proxy_key = replicate 32 7 };
}

abbrev listens_twice : ℕ → RawConfig → Bool
listens_twice i d = ltb i 2

run_client_lem_example : run_client init five_seconds resolve "id" config ≡ (
    if is_ready five_seconds resolve config
    then some (
      record (new_context five_seconds config) { has_work = true },
      serve_jobs resolve config.proxy_tcp.server
          ++ (link_jobs "id" config.proxy_tcp.client
              ++ listen_jobs resolve config.proxy_tcp.client),
    )
    else none)
unfolding set_logger set_logger_level set_logger_stack is_logged init
run_client_lem_example = run_client_lem init five_seconds resolve "id" config refl

-- Only the builds of the client fail.
abbrev succeeds : Act → Bool
succeeds (build source out) = not (same_bytes source (codes "./client/client.go"))
succeeds a = true

make_all_lem_example :
    (make_all succeeds [] go_goos_map go_go_arch_map config_m_map).running
    ≡ all_pass succeeds (make_all succeeds [] go_goos_map go_go_arch_map config_m_map).acts
make_all_lem_example = make_all_lem succeeds [] go_goos_map go_go_arch_map config_m_map
