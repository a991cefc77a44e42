-- ===== src/Receiver/Kept.antt =====
-- Which parts of the receiver's state each step leaves alone.
use vm_sync.Base.{ℕ, ◌≤◌, ◌≡◌, arith, some}
use vm_sync.Base.{ltb, ◌==◌, Bool-cases, Option-cases, inl, inr}
use vm_sync.Receiver.Tracker.{add64, seq_jump_limit}
use vm_sync.Receiver.State.{
  Receiver, Env, mark_done, try_close_gap, gap_warn_allowed, mark_gap_warned,
}
use vm_sync.Receiver.Handle.{check_jump, warn_gap}

module _ {S : Type 0} where
  -- A step on the sequence numbers alone: `last_seq` does not fall, and all else that lasts stays.
  pub record Moves (r r' : Receiver S) : Type 0 where
    pub cfg : r'.cfg ≡ r.cfg
    pub last_seq : r.last_seq ≤ r'.last_seq
    pub inflight_seq : r'.inflight_seq ≡ r.inflight_seq
    pub dedup : r'.dedup ≡ r.dedup
    pub imported : r'.imported ≡ r.imported
    pub dead_letters : r'.dead_letters ≡ r.dead_letters
    pub relay_letters : r'.relay_letters ≡ r.relay_letters
    pub relay : r'.relay ≡ r.relay
    pub reported_ts : r'.reported_ts ≡ r.reported_ts

  Moves-refl : (r : Receiver S) → Moves r r
  Moves-refl r = ground arith

  pub mark_done-Moves : (r : Receiver S) (s : ℕ) (env : Env) → Moves r (mark_done r s env)
  unfolding mark_done
  mark_done-Moves r s env = ground arith

  warn_gap-Moves : (r : Receiver S) (s now : ℕ) → Moves r (warn_gap r s now)
  unfolding warn_gap mark_gap_warned
  warn_gap-Moves r s now = elim (Bool-cases (gap_warn_allowed r now)) [
    | inl y ↦ rw y (ground arith)
    | inr n ↦ rw n (Moves-refl r)
  ]

  try_close_gap-Moves :
      (r : Receiver S) (s : ℕ) (env : Env) (r' : Receiver S)
      → try_close_gap r s env ≡ some r'
      → Moves r r'
  unfolding try_close_gap
  try_close_gap-Moves r s env r' e = ground arith

  check_jump_cases {ℓ} :
      (P : Receiver S → Type ℓ) (r : Receiver S) (s i : ℕ) (env : Env)
      → P r
      → P (warn_gap r s env.now)
      → ((r' : Receiver S) → try_close_gap r s env ≡ some r' → P (record r' { gap_warned = 0 }))
      → P (check_jump r s i env)
  unfolding check_jump
  check_jump_cases P r s i env same warned closed = elim (Bool-cases (ltb (add64 r.last_seq 1) s)) [
    | inr near ↦ rw near same
    | inl jump ↦ elim (Bool-cases (ltb (add64 r.last_seq seq_jump_limit) s)) [
      | inl far ↦ rw (jump, far) warned
      | inr gap ↦ elim (Bool-cases (i == 0)) [
        | inr later ↦ rw (jump, gap, later) warned
        | inl head ↦ elim (Option-cases (try_close_gap r s env)) [
          | inl held ↦ rw (jump, gap, head, held) warned
          | inr (r', e) ↦ rw (jump, gap, head, e) (closed r' e)
        ]
      ]
    ]
  ]

  pub check_jump-Moves : (r : Receiver S) (s i : ℕ) (env : Env) → Moves r (check_jump r s i env)
  check_jump-Moves r s i env =
      check_jump_cases (Moves r) r s i env (Moves-refl r) (warn_gap-Moves r s env.now)
        (λ r' e. let m = try_close_gap-Moves r s env r' e in ground (arith, m))
