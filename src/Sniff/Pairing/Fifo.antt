-- ===== src/Sniff/Pairing/Fifo.antt =====
-- The order in which the pairs of a connection reach the sink.
use mathlib.Core.List.{append_assoc, append-nil}
use mocking_box.Prelude.{
  ◌≡◌, refl, sym, ap, ◌∙◌, true, false, List, [], ◌∷◌, ◌++◌, if◌then◌else◌, GoString, eqs, eqs→eq,
  put, get-put, get-put_other, Bool-cases, inl, inr,
}
use mocking_box.Diff.Value.{Numerics}
use mocking_box.Sniff.Pairing.{
  PendingRequest, PendingResponse, Exchange, Conn, Conns, Event, request, response, exchange,
  match_queues, new_conn, conn_at, add_request, add_response, step,
}

module _ {N : Numerics} where
  -- The requests that arrived on a connection, in their order.
  unfoldable pub requests_on : GoString → List (Event N) → List (PendingRequest N)
  requests_on key [] = []
  requests_on key (request k q ∷ es) =
      let rest = requests_on key es in if eqs k key then q ∷ rest else rest
  requests_on key (response k p ∷ es) = requests_on key es

  unfoldable pub responses_on : GoString → List (Event N) → List PendingResponse
  responses_on key [] = []
  responses_on key (request k q ∷ es) = responses_on key es
  responses_on key (response k p ∷ es) =
      let rest = responses_on key es in if eqs k key then p ∷ rest else rest

  -- The nth request with the nth response, as far as both go.
  unfoldable pub zip_exchanges : List (PendingRequest N) → List PendingResponse → List (Exchange N)
  zip_exchanges [] ps = []
  zip_exchanges (q ∷ qs) [] = []
  zip_exchanges (q ∷ qs) (p ∷ ps) = exchange q p ∷ zip_exchanges qs ps

  abbrev key_of : Event N → GoString
  key_of (request k q) = k
  key_of (response k p) = k

  -- What the sink receives while the messages of one connection are added, among all the others.
  unfoldable pub emitted_on : GoString → List (Event N) → Conns N → List (Exchange N)
  unfolding step
  emitted_on key [] conns = []
  emitted_on key (e ∷ es) conns =
      let (out, conns') = step e conns in
      let rest = emitted_on key es conns' in if eqs (key_of e) key then out ++ rest else rest

  -- `pairer.match` has nothing to do.
  abbrev pub IsSettled : Conn N → Type 0
  IsSettled c = zip_exchanges (c.requests) (c.responses) ≡ []

  zip-match :
      (qs xs : List (PendingRequest N)) (ps ys : List PendingResponse)
      → zip_exchanges (qs ++ xs) (ps ++ ys)
        ≡ (match_queues qs ps).0
          ++ zip_exchanges
              ((match_queues qs ps).1.requests ++ xs)
              ((match_queues qs ps).1.responses ++ ys)
  unfolding match_queues zip_exchanges
  zip-match [] xs ps ys = refl
  zip-match (q ∷ qs) xs [] ys = refl
  zip-match (q ∷ qs) xs (p ∷ ps) ys = ap (◌∷◌ (exchange q p)) (zip-match qs xs ps ys)

  match-IsSettled :
      (qs : List (PendingRequest N)) (ps : List PendingResponse)
      → IsSettled ((match_queues qs ps).1)
  unfolding match_queues zip_exchanges
  match-IsSettled [] ps = refl
  match-IsSettled (q ∷ qs) [] = refl
  match-IsSettled (q ∷ qs) (p ∷ ps) = match-IsSettled qs ps

  conn_at-put : (key : GoString) (c : Conn N) (conns : Conns N) → conn_at key (put key c conns) ≡ c
  unfolding conn_at
  conn_at-put key c conns = rw (get-put key c conns)

  conn_at-put_other :
      (key k : GoString) (c : Conn N) (conns : Conns N)
      → eqs k key ≡ false
      → conn_at key (put k c conns) ≡ conn_at key conns
  unfolding conn_at
  conn_at-put_other key k c conns h = rw (get-put_other key k c conns h)

  -- What a message on the connection itself emits, and what follows it.
  hit :
      (key : GoString) (qs R : List (PendingRequest N)) (ps P : List PendingResponse)
      (out : List (Exchange N))
      → out
        ≡ zip_exchanges
            ((match_queues qs ps).1.requests ++ R)
            ((match_queues qs ps).1.responses ++ P)
      → (match_queues qs ps).0 ++ out ≡ zip_exchanges (qs ++ R) (ps ++ P)
  hit key qs R ps P out e = ap (◌++◌ ((match_queues qs ps).0)) e ∙ sym (zip-match qs R ps P)

  conn_at_eq :
      (key k : GoString) (conns : Conns N) (c : Conn N)
      → eqs k key ≡ true
      → conn_at key conns ≡ c
      → conn_at k conns ≡ c
  conn_at_eq key k conns c t e = rw (eqs→eq k key t) e

  conn_at_eq' :
      (key k : GoString) (conns : Conns N) (c : Conn N)
      → eqs k key ≡ true
      → conn_at k conns ≡ c
      → conn_at key conns ≡ c
  conn_at_eq' key k conns c t e = rw (← eqs→eq k key t) e

  -- The whole of `emitted_on` from a state whose connection has nothing left to pair.
  emitted_on-zip_from :
      (key : GoString) (es : List (Event N)) (conns : Conns N) (c : Conn N)
      → conn_at key conns ≡ c
      → IsSettled c
      → emitted_on key es conns
        ≡ zip_exchanges (c.requests ++ requests_on key es) (c.responses ++ responses_on key es)
  unfolding emitted_on requests_on responses_on add_request add_response
  emitted_on-zip_from key [] conns c e h =
      rw (append-nil (c.requests), append-nil (c.responses)) (sym h)
  emitted_on-zip_from key (request k q ∷ es) conns c e h =
      let qs = (conn_at k conns).requests ++ q ∷ [] in
      let ps = (conn_at k conns).responses in
      let m = match_queues qs ps in
      let ih = emitted_on-zip_from key es (put k (m.1) conns) in
      elim (Bool-cases (eqs k key)) [
        | inl t ↦ rw t (
            hit key qs (requests_on key es) ps (responses_on key es)
              (emitted_on key es (put k (m.1) conns))
              (ih (m.1) (conn_at_eq' key k (put k (m.1) conns) (m.1) t (conn_at-put k (m.1) conns))
                (match-IsSettled qs ps))
            ∙ rw (
              conn_at_eq key k conns c t e,
              append_assoc (c.requests) (q ∷ []) (requests_on key es),
            ))
        | inr f ↦ rw f (ih c (conn_at-put_other key k (m.1) conns f ∙ e) h)
      ]
  emitted_on-zip_from key (response k p ∷ es) conns c e h =
      let qs = (conn_at k conns).requests in
      let ps = (conn_at k conns).responses ++ p ∷ [] in
      let m = match_queues qs ps in
      let ih = emitted_on-zip_from key es (put k (m.1) conns) in
      elim (Bool-cases (eqs k key)) [
        | inl t ↦ rw t (
            hit key qs (requests_on key es) ps (responses_on key es)
              (emitted_on key es (put k (m.1) conns))
              (ih (m.1) (conn_at_eq' key k (put k (m.1) conns) (m.1) t (conn_at-put k (m.1) conns))
                (match-IsSettled qs ps))
            ∙ rw (
              conn_at_eq key k conns c t e,
              append_assoc (c.responses) (p ∷ []) (responses_on key es),
            ))
        | inr f ↦ rw f (ih c (conn_at-put_other key k (m.1) conns f ∙ e) h)
      ]

  -- Whatever the other connections do meanwhile, what the sink receives of a connection is its first
  -- request with its first response, its second with its second, and so on, up to the shorter of the
  -- two sequences.
  pub emitted_on-zip :
      (key : GoString) (es : List (Event N))
      → emitted_on key es [] ≡ zip_exchanges (requests_on key es) (responses_on key es)
  unfolding conn_at zip_exchanges
  emitted_on-zip key es = emitted_on-zip_from key es [] new_conn refl refl
