-- ===== src/Api/Router.antt =====
-- The services of storage/api/src/main.rs: `request_nonce`, the routing table, and the middleware
-- that takes the request's nonce off the list.
pub mod Effects
use dlc_stack.Base.{
  ℕ, zero, suc, String, Bool, Option, none, some, List, [], ◌∷◌, ◌++◌, not, ◌==◌, if◌then◌else◌,
  leb, length, keep,
}
use dlc_stack.Storage.Models.{ContractRequestParams, EventRequestParams}
use dlc_stack.Api.Json.{
  Json, new_contract_of, update_contract_of, delete_contract_of, new_event_of, update_event_of,
  delete_event_of,
}
use dlc_stack.Api.Http.{
  Method, get, post, put, delete, Route, health, request_nonce, contracts, contract, contracts_of,
  events, event, events_of, other, HeaderValue, visible, opaque, Request, Server, Outcome, Env,
  reply, param, status_ok, status_bad_request, status_not_found, nonce, healthy, bad_input, empty,
}
use dlc_stack.Api.Contracts.{
  get_contracts, create_contract, update_contract, delete_contract, delete_contracts,
}
use dlc_stack.Api.Events.{get_events, create_event, update_event, delete_event, delete_events}

abbrev pub nonce_vec_length : ℕ
nonce_vec_length = 100

-- `while nonces.len() >= NONCE_VEC_LENGTH { nonces.remove(0); }`. Each round shortens the list, so
-- the rounds are those of a recursion on it.
unfoldable pub evict : List String → List String
evict [] = []
evict (n ∷ ns) =
    let rest = evict ns in if leb nonce_vec_length (suc (length ns)) then rest else n ∷ ns

unfoldable pub issue_nonce : Env → Server → Outcome
issue_nonce env s =
    reply status_ok (nonce env.random_nonce)
      (record s { nonces = evict s.nonces ++ env.random_nonce ∷ [] })

-- `nonces.retain(|n| n != header_nonce)`; a nonce is never equal to a value outside ASCII.
abbrev pub retain : Option HeaderValue → List String → List String
retain none ns = ns
retain (some (visible h)) ns = keep (λ n. not (n == h)) ns
retain (some opaque) ns = ns

abbrev pub contract_query : List (String × String) → Option ContractRequestParams
contract_query q = elim (param "key" q) [
  | none ↦ none
  | some k ↦ some (record { key = k; uuid = param "uuid" q; state = param "state" q })
]

abbrev pub event_query : List (String × String) → Option EventRequestParams
event_query q = elim (param "key" q) [
  | none ↦ none
  | some k ↦ some (record { key = k; event_id = param "event_id" q })
]

-- A handler runs on what its extractor yields; where that fails the answer is 400.
abbrev pub extract : {A : Type 0} → Option A → (A → Server → Outcome) → Server → Outcome
extract none handler s = reply status_bad_request bad_input s
extract (some a) handler s = handler a s

abbrev pub body_as : {A : Type 0} → (Json → Option A) → Option Json → Option A
body_as decode none = none
body_as decode (some v) = decode v

unfoldable pub dispatch :
    Env → Method → Route → List (String × String) → Option Json → Server → Outcome
dispatch env get health q p s = reply status_ok healthy s
dispatch env get request_nonce q p s = issue_nonce env s
dispatch env get contracts q p s = extract (contract_query q) (get_contracts env) s
dispatch env post contracts q p s = extract (body_as new_contract_of p) (create_contract env) s
dispatch env put contracts q p s = extract (body_as update_contract_of p) (update_contract env) s
dispatch env delete contract q p s = extract (body_as delete_contract_of p) (delete_contract env) s
dispatch env delete (contracts_of ckey) q p s = delete_contracts env ckey s
dispatch env get events q p s = extract (event_query q) (get_events env) s
dispatch env post events q p s = extract (body_as new_event_of p) (create_event env) s
dispatch env put events q p s = extract (body_as update_event_of p) (update_event env) s
dispatch env delete event q p s = extract (body_as delete_event_of p) (delete_event env) s
dispatch env delete (events_of ckey) q p s = delete_events env ckey s
dispatch env m r q p s = reply status_not_found empty s

-- The `wrap_fn` of the application: the nonce goes before the handler runs.
unfoldable pub svc_call : Env → Request → Server → Outcome
svc_call env req s =
    dispatch env req.method req.route req.query req.payload
      (record s { nonces = retain req.authorization s.nonces })
