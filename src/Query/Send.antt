-- ===== src/Query/Send.antt =====
-- What a query does when it is awaited: the requests that it sends, its errors, and what it
-- leaves alone.
use near_fetch.Prelude.{◌∷◌, ◌≡◌, refl}
use near_fetch.Near.{Near, Except, value, error}
use near_fetch.Near.Errors.{JsonRpcError}
use near_fetch.Near.Requests.{Request, Response, MethodError}
use near_fetch.Error.{rpc, Result, ok, err, panic, map_err}
use near_fetch.Effects.{Net, called, State, lift, call, ◌>>=◌}
use near_fetch.Client.{send_query}
use near_fetch.Query.{ProcessQuery, Query, into_future, or_latest}

module _ ⦃near : Near⦄ ⦃net : Net⦄ where
  -- Only the network's log and world differ: no shared cell was written.
  pub record SameCells (s t : State) : Type 0 where
    pub fresh : t.fresh ≡ s.fresh
    pub nonces : t.nonces ≡ s.nonces
    pub counters : t.counters ≡ s.counters

  module _ {T R : Type 0} where
    -- the outcome of a query, once the network has answered
    abbrev pub reply :
        (p : ProcessQuery T R)
        → Except (JsonRpcError (MethodError p.method)) (Response p.method)
        → Result R
    reply p (value resp) = p.from_response resp
    reply p (error e) = err (rpc p.method e)

    -- the outcome of a query, once its request is made
    abbrev pub after_request :
        (p : ProcessQuery T R) → Query T → Result (Request p.method) → State → Result R × State
    after_request p q (ok request) s =
        let (answer, w) = net.call p.method q.client.rpc_client request s.world in
        (
          reply p answer,
          record s { trace = called p.method q.client.rpc_client request ∷ s.trace; world = w },
        )
    after_request p q (err e) s = (err e, s)
    after_request p q panic s = (panic, s)

    reply_lem :
        (p : ProcessQuery T R)
        (a : Except (JsonRpcError (MethodError p.method)) (Response p.method)) (s : State)
        → (lift (map_err (rpc p.method) a) >>= λ resp. lift (p.from_response resp)) s
          ≡ (reply p a, s)
    reply_lem p (value resp) s = refl
    reply_lem p (error e) s = refl

    request_lem :
        (p : ProcessQuery T R) (q : Query T) (r : Result (Request p.method)) (s : State)
        → (lift r >>= λ request. send_query p.method q.client request >>= λ answer.
              lift (map_err (rpc p.method) answer) >>= λ resp. lift (p.from_response resp))
            s
          ≡ after_request p q r s
    unfolding send_query call
    request_lem p q (ok request) s = reply_lem p _ _
    request_lem p q (err e) s = refl
    request_lem p q panic s = refl

    -- A query makes its request and sends it, or it returns the error of making it.
    pub into_future-after_request :
        (p : ProcessQuery T R) (q : Query T) (s : State)
        → into_future ⦃p = p⦄ q s
          ≡ after_request p q (p.into_request q.method (or_latest net.latest q.block_ref)) s
    unfolding into_future
    into_future-after_request p q s = request_lem p q _ s

    after_request-SameCells :
        (p : ProcessQuery T R) (q : Query T) (r : Result (Request p.method)) (s : State)
        → SameCells s (after_request p q r s).1
    after_request-SameCells p q (ok request) s = record {
      fresh = refl;
      nonces = refl;
      counters = refl;
    }
    after_request-SameCells p q (err e) s = record { fresh = refl; nonces = refl; counters = refl }
    after_request-SameCells p q panic s = record { fresh = refl; nonces = refl; counters = refl }

    -- A query writes no shared cell, whatever it is and however it ends.
    pub into_future-SameCells :
        (p : ProcessQuery T R) (q : Query T) (s : State) → SameCells s (into_future ⦃p = p⦄ q s).1
    into_future-SameCells p q s =
        rw (into_future-after_request p q s) (after_request-SameCells p q _ s)
