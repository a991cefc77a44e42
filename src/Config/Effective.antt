-- ===== src/Config/Effective.antt =====
-- internal/config/config.go and NewServer: the limits that accepted settings of the receiver give.
use vm_sync.Base.{
  ℕ, zero, suc, ◌≡◌, refl, arith, true, false, ◌⊎◌, inl, inr, List, Option, none, some, Bool-cases,
}
use vm_sync.Base.Int.{ℤ, pos, negsuc, ltb_ℤ}
use vm_sync.Poller.Window.{seconds}
use vm_sync.Config.Durations.{
  TimeTexts, is_empty, parse_duration_ext, dur, or_else, validate_dur, is_nonneg,
}
use vm_sync.Config.Receiving.{
  ReceiverSettings, ServerConfig, or_default, served_config, server_config, validate_receiver,
}

module _ (t : TimeTexts) where
  -- A duration of the settings and the one that the server works with.
  data TakenAs (text : List ℕ) (def d : ℤ) : Type 0 where
    default :
        (is_empty text ≡ true) ⊎ (parse_duration_ext t text ≡ some (pos 0))
        → d ≡ def
        → TakenAs text def d
    given :
        (n : ℕ)
        → parse_duration_ext t text ≡ some (pos (suc n))
        → d ≡ pos (suc n)
        → TakenAs text def d

  record IsEffective (c : ReceiverSettings) (s : ServerConfig) : Type 0 where
    read_timeout : TakenAs c.read_timeout (pos (seconds 60)) s.read_timeout
    max_inflight : ltb_ℤ (pos 0) s.max_inflight ≡ true
    max_conns : ltb_ℤ s.max_conns (pos 0) ≡ false

  taken :
      (text : List ℕ) (n : ℕ) (o : Option ℤ)
      → is_nonneg o ≡ true
      → parse_duration_ext t text ≡ o
      → TakenAs text (pos (seconds n)) (or_default (pos (seconds n)) (or_else o (pos (seconds n))))
  taken text n none h e = absurd (ground (arith, h))
  taken text n (some (negsuc k)) h e = absurd (ground (arith, h))
  taken text n (some (pos zero)) h e = default (inr e) refl
  taken text n (some (pos (suc k))) h e = given k e (ground arith)

  taken_dur :
      (text : List ℕ) (n : ℕ)
      → validate_dur t text ≡ true
      → TakenAs text (pos (seconds n)) (or_default (pos (seconds n)) (dur t text (pos (seconds n))))
  unfolding validate_dur dur
  taken_dur text n h = elim (Bool-cases (is_empty text)) [
    | inl e ↦ rw e (default (inl e) (ground arith))
    | inr e ↦ rw e (taken text n (parse_duration_ext t text) (rw e at h) refl)
  ]

  at_least_one : (n : ℤ) → ltb_ℤ (pos 0) (or_default (pos 8) n) ≡ true
  at_least_one n = ground arith

  -- With settings that Validate accepts, the server's read timeout is 60 seconds if the text is empty
  -- or a duration of zero, and otherwise the duration of the text, which is positive; a connection
  -- has room for a frame at least, and the limit of the connections is not negative.
  validate_receiver-IsEffective :
      (c : ReceiverSettings)
      → validate_receiver t c ≡ true
      → IsEffective c (served_config (server_config t c))
  unfolding validate_receiver served_config server_config
  validate_receiver-IsEffective c h = record {
    read_timeout = taken_dur c.read_timeout 60 (ground (arith, h));
    max_inflight = at_least_one c.max_inflight;
    max_conns = ground (arith, h);
  }
