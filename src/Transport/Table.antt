-- ===== src/Transport/Table.antt =====
-- internal/transport/tcp_server.go: the table of the connections, by its ids.
use vm_sync.Base.{
  ℕ, zero, suc, ◌+◌, ◌^◌, ◌<◌, ◌≤◌, ◌≡◌, ◌⊎◌, refl, ap, Bool, false, List, [], ◌∷◌, arith, ltb,
  ◌==◌, contains, delete, length, Bool-cases, inl, inr,
}
use vm_sync.Base.Maps
use vm_sync.Base.{Distinct}
use vm_sync.Transport.Accepting.{Server, count_up_to, at_limit, all_closed}

-- Every running goroutine has its own id and its connection under it in the table, where nothing
-- else is, and there are no more of them than the limit says.
pub record IsLimited (max_conns : ℕ) (s : Server) : Type 0 where
  pub registered : Maps.keys s.conns ≡ s.handlers
  pub distinct : Distinct s.handlers
  pub limited : (max_conns ≡ 0) ⊎ (length s.handlers ≤ max_conns)

abbrev pub Below : ℕ → List ℕ → Type 0
Below n [] = Unit {0}
Below n (x ∷ xs) = (x ≤ n) × Below n xs

-- With the bound of the ids that were given, which the counter does not reach the end of.
pub record IsServing (max_conns rounds : ℕ) (s : Server) : Type 0 where
  pub table : IsLimited max_conns s
  pub below : Below s.conn_seq s.handlers
  pub room : s.conn_seq + rounds < 2 ^ 64

pub keys-all_closed : (m : List (ℕ × Bool)) → Maps.keys (all_closed m) ≡ Maps.keys m
keys-all_closed [] = refl
keys-all_closed ((j, v) ∷ m) = ap (λ (l : List ℕ). j ∷ l) (keys-all_closed m)

pub Below-delete : (n x : ℕ) (xs : List ℕ) → Below n xs → Below n (delete x xs)
Below-delete n x [] b = tt
Below-delete n x (y ∷ xs) b = elim (Bool-cases (x == y)) [
  | inl same ↦ rw same (Below-delete n x xs b.1)
  | inr other ↦ rw other (b.0, Below-delete n x xs b.1)
]

pub Below-suc : (n : ℕ) (xs : List ℕ) → Below n xs → Below (suc n) xs
Below-suc n [] b = tt
Below-suc n (x ∷ xs) b = (omega (arith, b.0), Below-suc n xs b.1)

pub absent : (n : ℕ) (xs : List ℕ) → Below n xs → contains (suc n) xs ≡ false
absent n [] b = refl
absent n (x ∷ xs) b = ground (arith, b.0, absent n xs b.1)

-- The count is short of the limit exactly when the table is.
count_up_to-below : (n cur : ℕ) (m : List (ℕ × Bool)) → count_up_to n cur m < n → cur + length m < n
count_up_to-below n cur [] h = omega (arith, h)
count_up_to-below n cur (c ∷ m) h = elim (Bool-cases (ltb (suc cur) (suc n))) [
  | inl more ↦ omega (arith, count_up_to-below n (suc cur) m (rw more at h))
  | inr full ↦ absurd (ground (arith, h, full))
]

pub at_limit-room :
    (n : ℕ) (m : List (ℕ × Bool)) → at_limit n m ≡ false → (n ≡ 0) ⊎ (suc (length m) ≤ n)
at_limit-room zero m h = inl refl
at_limit-room (suc n) m h = inr (omega (arith, count_up_to-below (suc n) 0 m (ground (arith, h))))
