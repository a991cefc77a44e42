-- ===== src/Transport/View.antt =====
-- A connection of tcp_server.go seen from outside, and the invariant of its threads.
use vm_sync.Base.{
  ℕ, suc, ◌<◌, ◌≡◌, Bool, true, false, List, [], ◌∷◌, some, All, arith, ◌==◌, Bool-cases, inl, inr,
}
use vm_sync.Base.Maps.{get}
use vm_sync.Transport.Serial.{Serial, Serves}
use vm_sync.Transport.Serving.{
  Call, Reader, returned, Writer, holding, written, Serving, is_running, end_call,
}

abbrev pub is_open : Reader → Bool
is_open returned = false
is_open _ = true

-- A byte that is written counts before the writer has moved on.
abbrev pub answered_by : Writer → ℕ → ℕ
answered_by written i = suc i
answered_by _ i = i

-- What is seen from outside: how many frames were taken in, how many answers went out, the bytes.
abbrev pub view : Serving → Serial
view s = record {
  asked = s.idx;
  answered = answered_by s.writer s.write_idx;
  wire = s.wire;
  accepting = is_open s.reader;
}

abbrev pub Below : ℕ → List Call → Type 0
Below n cs = All (λ c. c.index < n) cs

pub Below-suc : (n : ℕ) (cs : List Call) → Below n cs → Below (suc n) cs
Below-suc n [] h = tt
Below-suc n (c ∷ cs) h = (omega (arith, h.0), Below-suc n cs h.1)

pub Below-end_call : (n i : ℕ) (cs : List Call) → Below n cs → Below n (end_call i cs)
Below-end_call n i [] h = tt
Below-end_call n i (c ∷ cs) h = elim (Bool-cases (c.index == i)) [
  | inl e ↦ rw e (Below-end_call n i cs h.1)
  | inr e ↦ rw e (h.0, Below-end_call n i cs h.1)
]

-- What runs was started.
pub Below-is_running : (n i : ℕ) (cs : List Call) → Below n cs → is_running i cs ≡ true → i < n
Below-is_running n i [] h e = absurd (ground (arith, e))
Below-is_running n i (c ∷ cs) h e = elim (Bool-cases (c.index == i)) [
  | inl e1 ↦ ground (arith, h.0, e1)
  | inr other ↦ Below-is_running n i cs h.1 (ground (arith, e, other))
]

module _ (answer : ℕ → ℕ) where
  abbrev pub InHand : Writer → ℕ → ℕ → Type 0
  InHand (holding ack) i idx = (ack ≡ answer i) × (i < idx)
  InHand written i idx = Unit {0} × (i < idx)
  InHand _ i idx = Unit {0} × Unit {0}

  -- Every running call, every result and the byte in the writer's hand belong to a frame that was
  -- taken in, and are that frame's.
  pub record IsServing (s : Serving) : Type 0 where
    pub running : Below s.idx s.calls
    pub kept : (i ack : ℕ) → get i s.pipe.results ≡ some ack → (i < s.idx) × (ack ≡ answer i)
    pub counted : s.pipe.next ≡ s.write_idx
    pub hand : InHand s.writer s.write_idx s.idx

module _ (limit : ℕ) (answer : ℕ → ℕ) where
  abbrev pub Follows : Serving → Serving → Type 0
  Follows s t =
      IsServing answer t
      × ((x : Serial) → Serves limit answer x (view s) → Serves limit answer x (view t))
