-- ===== src/Transport/Limited.antt =====
-- internal/transport/tcp_server.go: the table of the connections and the goroutines that serve them.
use vm_sync.Base.{
  ℕ, suc, ◌%◌, ◌^◌, ◌<◌, ◌≤◌, ◌≡◌, ◌⊎◌, refl, sym, ap, ◌∙◌, Bool, true, false, List, [], ◌∷◌, arith,
  if◌then◌else◌, contains, delete, length-delete-le, length, Bool-cases, inl, inr, subst,
}
use vm_sync.Base.Maps
use vm_sync.Base.{delete-absent, Distinct-delete}
use vm_sync.Base.{Distinct}
use vm_sync.Transport.Accepting.{
  Acceptor, accepting, accepted, left, Server, new_server, at_limit, store, admit, accept_step,
  conn_ends, close_server, Event, accept_returns, admits, handler_returns, closes, cancels,
  serve_step, serve,
}
use vm_sync.Transport.Table.{
  IsLimited, Below, IsServing, keys-all_closed, Below-delete, Below-suc, absent, at_limit-room,
}

-- What does not touch the table.
IsLimited-same :
    (n : ℕ) (s t : Server)
    → Maps.keys t.conns ≡ Maps.keys s.conns
    → t.handlers ≡ s.handlers
    → IsLimited n s
    → IsLimited n t
IsLimited-same n s t e h v = record {
  registered = e ∙ v.registered ∙ sym h;
  distinct = subst Distinct (sym h) v.distinct;
  limited = subst (λ l. (n ≡ 0) ⊎ (length l ≤ n)) (sym h) v.limited;
}

-- What leaves the table and the counter as they are, up to what Close closes.
kept :
    (n r : ℕ) (s t : Server)
    → Maps.keys t.conns ≡ Maps.keys s.conns
    → t.handlers ≡ s.handlers
    → t.conn_seq ≡ s.conn_seq
    → IsServing n (suc r) s
    → IsServing n r t
kept n r s t e h c v = record {
  table = IsLimited-same n s t e h v.table;
  below = subst (λ l. Below t.conn_seq l) (sym h) (subst (λ k. Below k s.handlers) (sym c) v.below);
  room = omega (arith, c, v.room);
}

keys_new :
    (k : ℕ) (m : List (ℕ × Bool))
    → contains k (Maps.keys m) ≡ false
    → Maps.keys (Maps.put k true m) ≡ k ∷ Maps.keys m
keys_new k m h =
    Maps.keys-put k true m ∙ ap (λ (l : List ℕ). k ∷ l) (delete-absent k (Maps.keys m) h)

store-IsServing :
    (n r : ℕ) (s : Server)
    → IsServing n (suc r) s
    → at_limit n s.conns ≡ false
    → IsServing n r (store s)
unfolding store
store-IsServing n r s v free = rw next record {
  table = record {
    registered =
        keys_new (suc s.conn_seq) s.conns (rw v.table.registered unused)
        ∙ ap (λ (l : List ℕ). suc s.conn_seq ∷ l) v.table.registered;
    distinct = (unused, v.table.distinct);
    limited = elim (at_limit-room n s.conns free) [
      | inl none ↦ inl none
      | inr one ↦
          inr (omega (arith, one, sym (Maps.length-keys s.conns), ap length v.table.registered))
    ];
  };
  below = (omega arith, Below-suc s.conn_seq s.handlers v.below);
  room = omega (arith, v.room);
}
  where
    next : suc s.conn_seq % 2 ^ 64 ≡ suc s.conn_seq
    next = omega (arith, v.room)

    unused : contains (suc s.conn_seq) s.handlers ≡ false
    unused = absent s.conn_seq s.handlers v.below

admit-IsServing :
    (n r : ℕ) (a : Acceptor) (s : Server) → IsServing n (suc r) s → IsServing n r (admit n a s)
unfolding admit
admit-IsServing n r accepting s v = kept n r s s refl refl refl v
admit-IsServing n r left s v = kept n r s s refl refl refl v
admit-IsServing n r accepted s v = elim (Bool-cases (at_limit n s.conns)) [
  | inl full ↦ rw full (kept n r s (record s { acceptor = accepting }) refl refl refl v)
  | inr free ↦ rw free (store-IsServing n r s v free)
]

accept_step-IsServing :
    (n r : ℕ) (works : Bool) (a : Acceptor) (s : Server)
    → IsServing n (suc r) s
    → IsServing n r (accept_step works a s)
unfolding accept_step
accept_step-IsServing n r works accepted s v = kept n r s s refl refl refl v
accept_step-IsServing n r works left s v = kept n r s s refl refl refl v
accept_step-IsServing n r false accepting s v = kept n r s _ refl refl refl v
accept_step-IsServing n r true accepting s v = by_listening s.listening
  where
    by_listening :
        (b : Bool)
        → IsServing n r (
            if b
            then record s { acceptor = accepted }
            else record s { acceptor = if s.cancelled then left else accepting })
    by_listening true = kept n r s _ refl refl refl v
    by_listening false = kept n r s _ refl refl refl v

conn_ends-IsServing :
    (n r id : ℕ) (s : Server) → IsServing n (suc r) s → IsServing n r (conn_ends id s)
unfolding conn_ends
conn_ends-IsServing n r id s v = elim (Bool-cases (contains id s.handlers)) [
  | inr other ↦ rw other (kept n r s s refl refl refl v)
  | inl runs ↦ rw runs (record {
    table = record {
      registered = Maps.keys-remove id s.conns ∙ ap (delete id) v.table.registered;
      distinct = Distinct-delete id s.handlers v.table.distinct;
      limited = elim v.table.limited [
        | inl none ↦ inl none
        | inr one ↦ inr (omega (arith, one, length-delete-le id s.handlers))
      ];
    };
    below = Below-delete s.conn_seq id s.handlers v.below;
    room = omega (arith, v.room);
  })
]

serve_step-IsServing :
    (n r : ℕ) (e : Event) (s : Server) → IsServing n (suc r) s → IsServing n r (serve_step n e s)
unfolding serve_step close_server
serve_step-IsServing n r (accept_returns works) s v = accept_step-IsServing n r works s.acceptor s v
serve_step-IsServing n r admits s v = admit-IsServing n r s.acceptor s v
serve_step-IsServing n r (handler_returns id) s v = conn_ends-IsServing n r id s v
serve_step-IsServing n r closes s v = kept n r s _ (keys-all_closed s.conns) refl refl v
serve_step-IsServing n r cancels s v = kept n r s _ refl refl refl v

serve-IsServing :
    (n : ℕ) (es : List Event) (s : Server) → IsServing n (length es) s → IsLimited n (serve n es s)
unfolding serve
serve-IsServing n [] s v = v.table
serve-IsServing n (e ∷ es) s v =
    serve-IsServing n es (serve_step n e s) (serve_step-IsServing n (length es) e s v)

-- Whatever happens to a new server, in less than 2^64 events: the running goroutines have different
-- ids, the table has exactly these ids, and there are at most MaxConns of them, if that is a limit.
pub serve-IsLimited :
    (max_conns : ℕ) (es : List Event)
    → length es < 2 ^ 64
    → IsLimited max_conns (serve max_conns es new_server)
serve-IsLimited max_conns es h = serve-IsServing max_conns es new_server (record {
  table = record { registered = refl; distinct = tt; limited = inr (omega arith) };
  below = tt;
  room = omega (arith, h);
})
