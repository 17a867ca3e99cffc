-- ===== src/Api/Http.antt =====
-- Requests, responses and the state of the storage API server.
use dlc_stack.Base.{ℕ, String, Bool, Option, none, some, List, [], ◌∷◌, ◌==◌, if◌then◌else◌}
use dlc_stack.Storage.Sql.{DbError, Conn, Table}
use dlc_stack.Storage.Models.{Contract, Event}
use dlc_stack.Api.Json.{Json}

pub data Method : Type 0 where
  get post put delete : Method

-- The paths that have a service, and any other: that records whether its text contains "/event"
-- and whether it contains "/contract".
pub data Route : Type 0 where
  health request_nonce contracts contract events event : Route
  contracts_of events_of : String → Route
  other : Bool → Bool → Route

-- A header value, and one that is not visible ASCII, which `to_str` refuses.
pub data HeaderValue : Type 0 where
  visible : String → HeaderValue
  opaque : HeaderValue

pub record Request : Type 0 where
  pub method : Method
  pub route : Route
  pub authorization : Option HeaderValue
  pub query : List (String × String)
  -- the body as JSON, if it parses as that
  pub payload : Option Json

pub data Body : Type 0 where
  empty healthy not_found_text bad_input : Body
  nonce : String → Body
  contract_list : List Contract → Body
  one_contract : Contract → Body
  event_list : List Event → Body
  one_event : Event → Body
  effected_num : ℕ → Body
  db_error : DbError → Body

pub record Response : Type 0 where
  pub status : ℕ
  pub body : Body

pub record Server : Type 0 where
  pub contracts : Table Contract
  pub events : Table Event
  pub nonces : List String

-- The server's answer, or a panic of the handler, each with the state that it leaves.
pub data Outcome : Type 0 where
  answered : Response → Server → Outcome
  panicked : Server → Outcome

abbrev pub state_of : Outcome → Server
state_of (answered r s) = s
state_of (panicked s) = s

-- What the surroundings give while one request is handled: whether the pool has a connection, how
-- that answers, and the nonce that would be drawn.
pub record Env : Type 0 where
  pub available : Bool
  pub conn : Conn
  pub random_nonce : String

abbrev pub status_ok : ℕ
status_ok = 200

abbrev pub status_bad_request : ℕ
status_bad_request = 400

abbrev pub status_forbidden : ℕ
status_forbidden = 403

abbrev pub status_not_found : ℕ
status_not_found = 404

abbrev pub reply : ℕ → Body → Server → Outcome
reply status body s = answered (record { status = status; body = body }) s

-- `pool.get().expect(..)`
abbrev pub with_conn : Env → Server → (Conn → Outcome) → Outcome
with_conn env s k = if env.available then k env.conn else panicked s

-- `web::Query`: a parameter by its name.
abbrev pub param : String → List (String × String) → Option String
param k [] = none
param k ((j, v) ∷ rest) = if j == k then some v else param k rest
