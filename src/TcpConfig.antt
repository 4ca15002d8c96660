-- ===== src/TcpConfig.antt =====
-- libsponge/tcp_helpers/tcp_config.hh: the constants and the configuration of a connection, and that
-- of an adapter.
use sponge_fa.Prelude.{ℕ, Option, none}
use sponge_fa.WrappingInt32.{WrappingInt32}

abbrev pub default_capacity : ℕ
default_capacity = 64000

abbrev pub max_payload_size : ℕ
max_payload_size = 1000

abbrev pub timeout_dflt : ℕ
timeout_dflt = 1000

abbrev pub max_retx_attempts : ℕ
max_retx_attempts = 8

pub record TcpConfig : Type 0 where
  pub rt_timeout : ℕ
  pub recv_capacity : ℕ
  pub send_capacity : ℕ
  pub fixed_isn : Option WrappingInt32

abbrev pub default_config : TcpConfig
default_config = record {
  rt_timeout = timeout_dflt;
  recv_capacity = default_capacity;
  send_capacity = default_capacity;
  fixed_isn = none;
}

-- An IPv4 socket address of libsponge/util/address.hh, as its number (`ipv4_numeric`) and its port.
pub record Address : Type 0 where
  pub ip : ℕ
  pub port : ℕ

pub record FdAdapterConfig : Type 0 where
  pub source : Address
  pub destination : Address
  pub loss_rate_dn : ℕ
  pub loss_rate_up : ℕ

abbrev pub default_adapter_config : FdAdapterConfig
default_adapter_config = record {
  source = record { ip = 0; port = 0 };
  destination = record { ip = 0; port = 0 };
  loss_rate_dn = 0;
  loss_rate_up = 0;
}
