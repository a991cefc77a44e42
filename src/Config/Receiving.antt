-- ===== src/Config/Receiving.antt =====
-- internal/config/config.go: the settings of the receiver, their validation, and what the server and
-- the handler are given; NewServer of internal/transport/tcp_server.go has the defaults.
use vm_sync.Base.{ℕ, Bool, false, ◌&&◌, not, List, [], ◌∷◌, if◌then◌else◌}
use vm_sync.Base.Int.{ℤ, pos, ltb_ℤ}
use vm_sync.Poller.Window.{seconds}
use vm_sync.Receiver.State.{Config}
use vm_sync.Config.Durations.{TimeTexts, is_empty, dur, validate_dur}
use vm_sync.Config.Settings.{override, all_of}

-- The parts of the receiver's settings that the code reads; `relay_wal` is whether the program has put
-- a log there.
pub record ReceiverSettings : Type 0 where
  pub target_url : List ℕ
  pub listen : List ℕ
  pub read_timeout : List ℕ
  pub max_inflight : ℤ
  pub max_conns : ℤ
  pub last_seq_file : List ℕ
  pub dlq_dir : List ℕ
  pub relay_dlq_dir : List ℕ
  pub relay_timeout : List ℕ
  pub relay_wal : Bool

-- os.Getenv for the receiver's variables; an unset one is empty.
pub record ReceiverEnv : Type 0 where
  pub target_url : List ℕ
  pub tcp_listen : List ℕ

-- The overrides but for the monitor's address and the log level.
unfoldable pub apply_receiver_env : ReceiverEnv → ReceiverSettings → ReceiverSettings
apply_receiver_env env c = record c {
  target_url = override env.target_url c.target_url;
  listen = override env.tcp_listen c.listen;
}

-- transport.ServerConfig
pub record ServerConfig : Type 0 where
  pub listen : List ℕ
  pub read_timeout : ℤ
  pub max_inflight : ℤ
  pub max_conns : ℤ

abbrev pub or_default : ℤ → ℤ → ℤ
or_default def n = if ltb_ℤ (pos 0) n then n else def

-- The defaults of NewServer.
unfoldable pub served_config : ServerConfig → ServerConfig
served_config c = record c {
  read_timeout = or_default (pos (seconds 60)) c.read_timeout;
  max_inflight = or_default (pos 8) c.max_inflight;
}

-- The handler is given only whether each part is configured. run sets LastWriteTs.
unfoldable pub receiver_config : ReceiverSettings → Config
receiver_config c = record {
  last_seq_file = not (is_empty c.last_seq_file);
  dlq_dir = not (is_empty c.dlq_dir);
  relay_wal = c.relay_wal;
  relay_dlq_dir = not (is_empty c.relay_dlq_dir);
  last_write_ts = false;
}

module _ (t : TimeTexts) where
  unfoldable pub validate_receiver : ReceiverSettings → Bool
  unfolding validate_dur
  validate_receiver c =
      not (is_empty c.target_url)
      && not (is_empty c.listen)
      && not (ltb_ℤ c.max_inflight (pos 0))
      && not (ltb_ℤ c.max_conns (pos 0))
      && all_of (validate_dur t) (c.read_timeout ∷ c.relay_timeout ∷ [])

  unfoldable pub server_config : ReceiverSettings → ServerConfig
  unfolding dur
  server_config c = record {
    listen = c.listen;
    read_timeout = dur t c.read_timeout (pos (seconds 60));
    max_inflight = c.max_inflight;
    max_conns = c.max_conns;
  }

  unfoldable pub relay_timeout : ReceiverSettings → ℤ
  unfolding dur
  relay_timeout c = dur t c.relay_timeout (pos (seconds 10))
