-- ===== src/Api/Consistent/Serve.antt =====
-- The server stays consistent under any sequence of requests.
use dlc_stack.Base.{String, not, Option, none, some, List, [], ◌∷◌, arith, ◌==◌}
use dlc_stack.Api.Http.{
  Server, Outcome, Env, state_of, Request, Route, Method, get, post, put, delete, request_nonce,
  contracts, contract, contracts_of, events, event, events_of, HeaderValue, visible, opaque,
}
use dlc_stack.Api.Json.{
  Json, new_contract_of, update_contract_of, delete_contract_of, new_event_of, update_event_of,
  delete_event_of,
}
use dlc_stack.Api.Router.{retain, extract, body_as, contract_query, event_query, dispatch, svc_call}
use dlc_stack.Api.Auth.{Crypto, call}
use dlc_stack.Api.Consistent.{IsConsistent, keep_le}
use dlc_stack.Api.Consistent.Handlers.{
  create_contract-IsConsistent, update_contract-IsConsistent, delete_contract-IsConsistent,
  delete_contracts-IsConsistent, create_event-IsConsistent, update_event-IsConsistent,
  delete_event-IsConsistent, delete_events-IsConsistent, get_contracts_state, get_events_state,
  issue_nonce-IsConsistent,
}
use dlc_stack.Api.Auth.States.{call_induction}

module _ (env : Env) {s : Server} (c : IsConsistent s) where
  extract-IsConsistent :
      {A : Type 0} (o : Option A) (handler : A → Server → Outcome)
      → ((a : A) → IsConsistent (state_of (handler a s)))
      → IsConsistent (state_of (extract o handler s))
  extract-IsConsistent none handler keeps = c
  extract-IsConsistent (some a) handler keeps = keeps a

  dispatch-IsConsistent :
      (m : Method) (r : Route) (q : List (String × String)) (p : Option Json)
      → IsConsistent (state_of (dispatch env m r q p s))
  unfolding dispatch
  dispatch-IsConsistent get contracts q p =
      extract-IsConsistent (contract_query q) _ (λ a. rw (get_contracts_state env s a) c)
  dispatch-IsConsistent get events q p =
      extract-IsConsistent (event_query q) _ (λ a. rw (get_events_state env s a) c)
  dispatch-IsConsistent get request_nonce q p = issue_nonce-IsConsistent env c
  dispatch-IsConsistent post contracts q p =
      extract-IsConsistent (body_as new_contract_of p) _ (create_contract-IsConsistent env c)
  dispatch-IsConsistent put contracts q p =
      extract-IsConsistent (body_as update_contract_of p) _ (update_contract-IsConsistent env c)
  dispatch-IsConsistent delete contract q p =
      extract-IsConsistent (body_as delete_contract_of p) _ (delete_contract-IsConsistent env c)
  dispatch-IsConsistent delete (contracts_of ckey) q p = delete_contracts-IsConsistent env c ckey
  dispatch-IsConsistent post events q p =
      extract-IsConsistent (body_as new_event_of p) _ (create_event-IsConsistent env c)
  dispatch-IsConsistent put events q p =
      extract-IsConsistent (body_as update_event_of p) _ (update_event-IsConsistent env c)
  dispatch-IsConsistent delete event q p =
      extract-IsConsistent (body_as delete_event_of p) _ (delete_event-IsConsistent env c)
  dispatch-IsConsistent delete (events_of ckey) q p = delete_events-IsConsistent env c ckey
  dispatch-IsConsistent m r q p = c

retain-IsConsistent :
    {s : Server} (h : Option HeaderValue)
    → IsConsistent s
    → IsConsistent (record s { nonces = retain h s.nonces })
retain-IsConsistent none c = c
retain-IsConsistent (some opaque) c = c
retain-IsConsistent {s} (some (visible n)) c = record {
  contracts_unique = c.contracts_unique;
  events_unique = c.events_unique;
  nonces_bounded = omega (arith, keep_le (λ m. not (m == n)) s.nonces, c.nonces_bounded);
}

svc_call-IsConsistent :
    (env : Env) (req : Request) {s : Server}
    → IsConsistent s
    → IsConsistent (state_of (svc_call env req s))
unfolding svc_call
svc_call-IsConsistent env req c =
    dispatch-IsConsistent env (retain-IsConsistent req.authorization c) req.method req.route
      req.query req.payload

call-IsConsistent :
    (lib : Crypto) (env : Env) (req : Request) (s : Server)
    → IsConsistent s
    → IsConsistent (state_of (call lib env req s))
call-IsConsistent lib env req s c =
    call_induction lib env req s IsConsistent c
      (λ p. svc_call-IsConsistent env (record req { payload = p }) c)

-- The requests that the server handles, one after the other, each in its own surroundings.
unfoldable pub serve : Crypto → List (Env × Request) → Server → Server
serve lib [] s = s
serve lib ((env, req) ∷ rest) s = serve lib rest (state_of (call lib env req s))

-- From a consistent server, whatever the requests and whatever fails, the server that is left is
-- consistent: no two rows of a table share their key and name, and at most 100 nonces are held.
pub serve-IsConsistent :
    (lib : Crypto) (requests : List (Env × Request)) (s : Server)
    → IsConsistent s
    → IsConsistent (serve lib requests s)
unfolding serve
serve-IsConsistent lib [] s c = c
serve-IsConsistent lib ((env, req) ∷ rest) s c =
    serve-IsConsistent lib rest (state_of (call lib env req s)) (call-IsConsistent lib env req s c)
