-- ===== src/Hook/Server.antt =====
-- The server of the hook tool: _hook-tcp/server/server.go. `resolve i` and `listens i` are the
-- lookup of addresses and the success of net.Listen in the run number `i`.
use go_cfc.Base.{ℕ, zero, suc, ◌≡◌, Bool, false, Option, none, some, List, String, if◌then◌else◌}
use go_cfc.Base.Int.{ℤ, pos}
use go_cfc.Loger.{Logger}
use go_cfc.Server.Setup.{RawConfig, check}
use go_cfc.Tools.Rerun.{re_run}
use go_cfc.Hook.Config.{CfcHookConfig, set_logger}

-- The config of the server, with the times that check fills in.
unfoldable pub hook_config : CfcHookConfig → RawConfig
hook_config c = record {
  raw_key = c.proxy_server_host.link_proxy_key;
  ln_addr = c.proxy_server_host.proxy_server_addr;
  resolved = none;
  handle_wait_time = pos 0;
  ping_wait_time = pos 0;
  cg_task_time = pos 0;
  switch_vpn_proxy = c.proxy_server_host.switch_vpn_proxy;
  switch_link_client = c.proxy_server_host.switch_link_client;
  switch_udp_p2p = c.proxy_server_host.switch_udp_p2p;
  switch_anonymity = c.proxy_server_host.switch_anonymity;
}

-- How runServer ends: it returns after some runs, or it panics in the last one. Both have the number
-- of the runs and the sleeps between them.
pub data Ended : Type 0 where
  returned : ℕ → List ℕ → Ended
  panicked : ℕ → List ℕ → Ended

module _ (l : Logger) (resolve : ℕ → String → Option String) where
  -- The config that all runs share, after the check of run number `i`, if none has panicked.
  unfoldable pub config_at : RawConfig → ℕ → Option RawConfig
  unfolding check
  config_at sc zero = check l (resolve 0) sc
  config_at sc (suc i) = elim (config_at sc i) [
    | none ↦ none
    | some before ↦ check l (resolve (suc i)) before
  ]

  -- Whether NewProxyServer2 makes a server in run number `i`; it panics otherwise, since without a
  -- listener its goroutine uses nil. A server that is made is waited for.
  unfoldable pub makes_server : (listens : ℕ → RawConfig → Bool) → RawConfig → ℕ → Bool
  unfolding config_at
  makes_server listens sc i = elim (config_at sc i) [ none ↦ false | some c ↦ listens i c ]

  -- The panic ends the calls of the function, which says to go on otherwise.
  unfoldable pub ending_of : (listens : ℕ → RawConfig → Bool) → RawConfig → ℕ → List ℕ → Ended
  unfolding makes_server
  ending_of listens sc zero naps = returned 0 naps
  ending_of listens sc (suc i) naps =
      if makes_server listens sc i then returned (suc i) naps else panicked (suc i) naps

-- runServer, where each server that is made is closed at some time; `none` is no end within the fuel.
unfoldable pub run_server :
    Logger
    → (resolve : ℕ → String → Option String) → (listens : ℕ → RawConfig → Bool)
    → (parse : String → Option ℤ) → ℕ
    → CfcHookConfig
    → Option Ended
unfolding set_logger hook_config makes_server ending_of re_run
run_server l resolve listens parse fuel c =
    let l1 = set_logger c.setting l in
    let sc = hook_config c in
    elim (re_run parse fuel c.setting.re_link_time (makes_server l1 resolve listens sc))
      as (λ _. Option Ended) [
        | none ↦ none
        | some (n, naps) ↦ some (ending_of l1 resolve listens sc n naps)
      ]

-- A config that passes its checks, with the key and the address of the tool's config.
record Good (l : Logger) (resolve : String → Option String) (sc : RawConfig) (c : Option RawConfig)
    : Type 0 where
  last : RawConfig
  is_last : c ≡ some last
  key : last.raw_key ≡ sc.raw_key
  addr : last.ln_addr ≡ sc.ln_addr
