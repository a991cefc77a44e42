-- ===== src/Sender/Backoff.antt =====
-- SenderConfig, NewSender and backoff of internal/sender/sender.go. Durations are nanoseconds.
use vm_sync.Base.{
  or_default, ℕ, zero, suc, ◌+◌, ◌-◌, ◌*◌, ◌^◌, ◌≤◌, ◌≡◌, refl, arith, if◌then◌else◌, leb, ◌==◌,
  min,
}
use native.Mathlib.Nat.{pow-suc}

-- A field that is not positive stands for its default, so 0 stands for all of them.
pub record SenderConfig : Type 0 where
  pub max_retry : ℕ
  pub backoff_base : ℕ
  pub backoff_max : ℕ
  pub heartbeat_interval : ℕ
  pub idle_sleep : ℕ
  pub pipeline : ℕ

unfoldable pub with_defaults : SenderConfig → SenderConfig
with_defaults c = record {
  max_retry = or_default c.max_retry 10;
  backoff_base = or_default c.backoff_base (10 ^ 9);
  backoff_max = or_default c.backoff_max (60 * 10 ^ 9);
  heartbeat_interval = or_default c.heartbeat_interval (30 * 10 ^ 9);
  idle_sleep = or_default c.idle_sleep (200 * 10 ^ 6);
  pipeline = or_default c.pipeline 1;
}

-- The loop, with the rounds that are left.
unfoldable pub backoff_loop : ℕ → ℕ → ℕ → ℕ
backoff_loop zero limit d = d
backoff_loop (suc n) limit d =
    let rest = backoff_loop n limit (d * 2) in if leb limit (d * 2) then limit else rest

unfoldable pub backoff : SenderConfig → ℕ → ℕ
unfolding backoff_loop
backoff c n = if n == 0 then 0 else backoff_loop (n - 1) c.backoff_max c.backoff_base

pow_pos : (n : ℕ) → 1 ≤ 2 ^ n
pow_pos zero = omega arith
pow_pos (suc n) = rw (pow-suc 2 n) (omega (arith, pow_pos n))

grows : (d n : ℕ) → d ≤ d * 2 ^ n
grows d n = mul_mono d (2 ^ n) (pow_pos n)
  where
    mul_mono : (a b : ℕ) → 1 ≤ b → a ≤ a * b
    mul_mono a b h = grind (arith, h)

doubled : (d n : ℕ) → d * 2 ^ suc n ≡ d * 2 * 2 ^ n
doubled d n = rw (pow-suc 2 n) (grind arith)

loop_value :
    (n limit d : ℕ) → backoff_loop n limit d ≡ (if n == 0 then d else min limit (d * 2 ^ n))
unfolding backoff_loop
loop_value zero limit d = refl
loop_value (suc n) limit d =
    ground (arith, loop_value n limit (d * 2), doubled d n, grows (d * 2) n)

-- The wait before the first attempt is none; before the first retry it is the base, even if that is
-- more than the limit; before retry n + 1 it is the base times 2^n, up to the limit.
pub backoff-value :
    (c : SenderConfig) (n : ℕ)
    → (backoff c 0 ≡ 0)
      × ((backoff c 1 ≡ c.backoff_base)
          × (backoff c (n + 2) ≡ min c.backoff_max (c.backoff_base * 2 ^ (n + 1))))
unfolding backoff
backoff-value c n = (
  refl,
  (
    loop_value 0 c.backoff_max c.backoff_base,
    ground (arith, loop_value (n + 1) c.backoff_max c.backoff_base),
  ),
)
