-- ===== src/Api/Consistent.antt =====
-- What holds of the server between two requests, whatever the requests: the UNIQUE constraints of
-- both tables, and the bound on the list of nonces.
pub mod Handlers
pub mod Serve
use dlc_stack.Base.{
  eq_iff, ◌⊎◌, ℕ, zero, suc, ◌+◌, ◌≤◌, ◌<◌, String, ◌≡◌, refl, Bool, true, false, not, Option, none,
  some, List, [], ◌∷◌, ◌++◌, inl, inr, arith, ◌==◌, length, keep, length-append, Bool-cases, Result,
  ok, err,
}
use dlc_stack.Storage.Sql.{DbError, Conn, Table, IsUnique}
use dlc_stack.Storage.Sql.Unique.{IsUnique-insert_into, IsUnique-update, IsUnique-delete}
use dlc_stack.Storage.Models.{
  Contract, Event, NewContract, UpdateContract, DeleteContract, NewEvent, UpdateEvent, DeleteEvent,
  ContractRequestParams, EventRequestParams,
}
use dlc_stack.Storage.Contracts as ContractQueries
use dlc_stack.Storage.Events as EventQueries
use dlc_stack.Api.Contracts
use dlc_stack.Api.Events
use dlc_stack.Api.Http.{
  Server, answered, panicked, Outcome, Env, state_of, Request, Route, Method, get, post, put,
  delete, health, request_nonce, contracts, contract, contracts_of, events, event, events_of, other,
  HeaderValue, visible, opaque,
}
use dlc_stack.Api.Json.{
  Json, new_contract_of, update_contract_of, delete_contract_of, new_event_of, update_event_of,
  delete_event_of,
}
use dlc_stack.Api.Router.{
  nonce_vec_length, evict, issue_nonce, retain, extract, body_as, contract_query, event_query,
  dispatch, svc_call,
}

pub record IsConsistent (s : Server) : Type 0 where
  pub contracts_unique : IsUnique (λ c. c.key) (λ c. c.uuid) s.contracts.rows
  pub events_unique : IsUnique (λ e. e.key) (λ e. e.event_id) s.events.rows
  pub nonces_bounded : length s.nonces ≤ nonce_vec_length

pub evict_lt : (ns : List String) → length (evict ns) < nonce_vec_length
unfolding evict
evict_lt [] = omega arith
evict_lt (n ∷ ns) = ground (arith, evict_lt ns)

pub keep_le : (p : String → Bool) (ns : List String) → length (keep p ns) ≤ length ns
keep_le p [] = omega arith
keep_le p (n ∷ ns) = ground (arith, keep_le p ns)

abbrev pub with_contracts : Server → Table Contract → Server
with_contracts s t = record s { contracts = t }

abbrev pub with_events : Server → Table Event → Server
with_events s t = record s { events = t }

module _ {s : Server} (c : IsConsistent s) where
  pub with_contracts-IsConsistent :
      (t : Table Contract)
      → IsUnique (λ r. r.key) (λ r. r.uuid) t.rows
      → IsConsistent (with_contracts s t)
  with_contracts-IsConsistent t u = record {
    contracts_unique = u;
    events_unique = c.events_unique;
    nonces_bounded = c.nonces_bounded;
  }

  pub with_events-IsConsistent :
      (t : Table Event)
      → IsUnique (λ r. r.key) (λ r. r.event_id) t.rows
      → IsConsistent (with_events s t)
  with_events-IsConsistent t u = record {
    contracts_unique = c.contracts_unique;
    events_unique = u;
    nonces_bounded = c.nonces_bounded;
  }

-- The state behind each kind of answer.
module _ (s : Server) where
  pub created_state :
      (x : Result DbError Contract × Table Contract)
      → state_of (Contracts.created s x) ≡ with_contracts s x.1
  created_state (ok a, t) = refl
  created_state (err e, t) = refl

  pub changed_state :
      (x : Result DbError ℕ × Table Contract)
      → state_of (Contracts.changed s x) ≡ with_contracts s x.1
  changed_state (ok zero, t) = refl
  changed_state (ok (suc n), t) = refl
  changed_state (err e, t) = refl

  pub all_deleted_state :
      (x : Result DbError ℕ × Table Contract)
      → state_of (Contracts.all_deleted s x) ≡ with_contracts s x.1
  all_deleted_state (ok n, t) = refl
  all_deleted_state (err e, t) = refl

  pub event_created_state :
      (x : Result DbError Event × Table Event) → state_of (Events.created s x) ≡ with_events s x.1
  event_created_state (ok a, t) = refl
  event_created_state (err e, t) = refl

  pub event_changed_state :
      (x : Result DbError ℕ × Table Event) → state_of (Events.changed s x) ≡ with_events s x.1
  event_changed_state (ok zero, t) = refl
  event_changed_state (ok (suc n), t) = refl
  event_changed_state (err e, t) = refl

  pub event_all_deleted_state :
      (x : Result DbError ℕ × Table Event) → state_of (Events.all_deleted s x) ≡ with_events s x.1
  event_all_deleted_state (ok n, t) = refl
  event_all_deleted_state (err e, t) = refl
