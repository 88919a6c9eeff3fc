-- ===== src/Hook/Config.antt =====
-- The config of the hook tool: _hook-tcp/config/config.go. What a file holds and what encoding/json
-- makes of it are arguments, both with whether there was an error.
use go_cfc.Base.{ℕ, Bool, Option, none, some, List, String, Bytes, ◌==◌, if◌then◌else◌}
use go_cfc.Loger.{
  Logger, is_logged, log_level_error, log_level_warn, set_logger_level, set_logger_stack,
}

pub record ProxyServerHostConfig : Type 0 where
  pub proxy_server_addr : String
  pub link_proxy_key : Bytes
  pub switch_vpn_proxy : Bool
  pub switch_link_client : Bool
  pub switch_udp_p2p : Bool
  pub switch_anonymity : Bool

pub record ProxyTcpServerConfig : Type 0 where
  pub listen_proxy_name : String
  pub server_dial_addr : String
  pub proxy_crypto_key : String

pub record ProxyTcpClientConfig : Type 0 where
  pub dial_proxy_name : String
  pub client_listen_addr : String
  pub proxy_crypto_key : String

pub record ProxyTcp : Type 0 where
  pub server : List ProxyTcpServerConfig
  pub client : List ProxyTcpClientConfig

pub record SettingConfig : Type 0 where
  pub re_link_time : String
  pub log_level : ℕ
  pub log_stack : Bool

-- `proxy_tcp` is the one field of ProxyDeviceBoxConfig.
pub record CfcHookConfig : Type 0 where
  pub proxy_server_host : ProxyServerHostConfig
  pub proxy_tcp : ProxyTcp
  pub setting : SettingConfig

-- SetLogError: `none` is its panic, and what comes after it otherwise is `next`.
abbrev pub log_error {ℓ} : {A : Type ℓ} → Logger → Bool → Option A → Option A
log_error l failed next =
    if failed then (if is_logged l log_level_error then none else next) else next

-- ReadConfig, whose errors end the program only if the logger writes errors.
unfoldable pub read_config :
    Logger
    → (read_file : String → Bytes × Bool) → (unmarshal : Bytes → CfcHookConfig × Bool) → String
    → Option CfcHookConfig
read_config l read_file unmarshal path =
    let (b, no_file) = read_file path in
    let (config, bad) = unmarshal b in log_error l no_file (log_error l bad (some config))

-- The beginning of runClient and of runServer: the level 0 is replaced.
unfoldable pub set_logger : SettingConfig → Logger → Logger
unfolding set_logger_level set_logger_stack
set_logger setting l =
    set_logger_stack setting.log_stack
      (set_logger_level (if setting.log_level == 0 then log_level_warn else setting.log_level) l)
