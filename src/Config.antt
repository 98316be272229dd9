-- ===== src/Config.antt =====
-- The configuration (src/config.c, src/config.h): one record behind a lock, so each function is
-- one atomic step on it.
use lbm_rtp_proxy.Base.{ℕ, ◌^◌, ◌<◌, arith}

pub record Config : Type 0 where
  pub int_proxy_addr : ℕ
  pub ext_proxy_addr : ℕ
  pub smoothing : ℕ
  pub loopback : ℕ

-- `empty_struct(config, cfg)`
abbrev pub empty_config : Config
empty_config = record { int_proxy_addr = 0; ext_proxy_addr = 0; smoothing = 0; loopback = 0 }

-- The argument is the new contents, then what the static variable `config` held.
unfoldable pub config_set : Config → Config → Config
config_set cfg config = cfg

unfoldable pub config_get : Config → Config
config_get config = config

unfoldable pub config_clr : Config → Config
unfolding config_set
config_clr config = config_set (record empty_config { smoothing = 1; loopback = 1 }) config

unfoldable pub config_init : Config → Config
unfolding config_clr
config_init config = config_clr config

-- The fields are in the range of their types.
pub record IsConfig (c : Config) : Type 0 where
  pub int_proxy_addr-lt : c.int_proxy_addr < 2 ^ 32
  pub ext_proxy_addr-lt : c.ext_proxy_addr < 2 ^ 32
  pub smoothing-lt : c.smoothing < 2 ^ 8
  pub loopback-lt : c.loopback < 2 ^ 8

pub config_clr-IsConfig : (c : Config) → IsConfig (config_clr c)
unfolding config_clr
config_clr-IsConfig c = omega arith
