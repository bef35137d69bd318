-- ===== src/Query/Answered.antt =====
-- near-fetch/src/query.rs: what is known of a query that returned a value.
use near_fetch.Prelude.{◌∷◌, ◌≡◌, refl, sym, ap, ◌∙◌, arith}
use mathlib.Core.Path.{subst}
use near_fetch.Near.{Near, Except, value, error}
use near_fetch.Near.Errors.{JsonRpcError}
use near_fetch.Near.Requests.{MethodError, Request, Response}
use near_fetch.Error.{Result, ok, err, panic}
use near_fetch.Effects.{called, Net, State}
use near_fetch.Effects.Laws.{ok_injective}
use near_fetch.Query.{ProcessQuery, Query, into_future, or_latest}
use near_fetch.Query.Send.{SameCells, reply, after_request, into_future-after_request}

module _ ⦃near : Near⦄ ⦃net : Net⦄ {T R : Type 0} (p : ProcessQuery T R) (q : Query T) where
  -- The query made its request, sent that alone, and its value is what it read from the answer.
  pub record Answered (s : State) (r : R) (t : State) : Type 0 where
    pub request : Request p.method
    pub response : Response p.method
    pub made : p.into_request q.method (or_latest net.latest q.block_ref) ≡ ok request
    pub answered : (net.call p.method q.client.rpc_client request s.world).0 ≡ value response
    pub read : p.from_response response ≡ ok r
    pub log : t.trace ≡ called p.method q.client.rpc_client request ∷ s.trace
    pub cells : SameCells s t

  reply-eq-ok :
      (a : Except (JsonRpcError (MethodError p.method)) (Response p.method)) (r : R)
      → reply p a ≡ ok r
      → (response : Response p.method) × (a ≡ value response) × (p.from_response response ≡ ok r)
  reply-eq-ok (value response) r e = (response, refl, e)
  reply-eq-ok (error x) r e = absurd (ground arith)

  after_request-Answered :
      (made : Result (Request p.method)) (s t : State) (r : R)
      → p.into_request q.method (or_latest net.latest q.block_ref) ≡ made
      → after_request p q made s ≡ (ok r, t)
      → Answered s r t
  after_request-Answered (ok request) s t r made e =
      let a = (net.call p.method q.client.rpc_client request s.world).0 in
      let (response, answered, read) = reply-eq-ok a r (ap (λ (o : Result R × State). o.0) e) in
      let state = ap (λ (o : Result R × State). o.1) e in
      record {
        request = request;
        response = response;
        made = made;
        answered = answered;
        read = read;
        log = ap (λ (u : State). u.trace) (sym state);
        cells = subst (SameCells s) state (record { fresh = refl; nonces = refl; counters = refl });
      }
  after_request-Answered (err x) s t r made e =
      absurd (ground (arith, ap (λ (o : Result R × State). o.0) e))
  after_request-Answered panic s t r made e =
      absurd (ground (arith, ap (λ (o : Result R × State). o.0) e))

  pub into_future-Answered :
      (s t : State) (r : R) → into_future ⦃p = p⦄ q s ≡ (ok r, t) → Answered s r t
  into_future-Answered s t r e =
      after_request-Answered (p.into_request q.method (or_latest net.latest q.block_ref)) s t r refl
        (sym (into_future-after_request p q s) ∙ e)

  -- the log, where the request is known
  pub Answered-log :
      (s t : State) (r : R) (request : Request p.method)
      → Answered s r t
      → p.into_request q.method (or_latest net.latest q.block_ref) ≡ ok request
      → t.trace ≡ called p.method q.client.rpc_client request ∷ s.trace
  Answered-log s t r request answered made =
      answered.log
      ∙ ap (λ (x : Request p.method). called p.method q.client.rpc_client x ∷ s.trace)
          (ok_injective (sym answered.made ∙ made))
