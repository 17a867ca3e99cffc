-- ===== src/Api/Auth.antt =====
-- The signature check of storage/api/src/verify_sigs.rs, which runs before every other layer.
pub mod States
pub mod Replay
pub mod Soundness
pub mod Reads
pub mod Refusals
use dlc_stack.Base.{
  String, Bool, true, false, not, ◌&&◌, ◌||◌, Option, none, some, List, ◌==◌, if◌then◌else◌,
  exists_in,
}
use dlc_stack.Api.Json.{Json, AuthenticatedMessage, authenticated_message_of, index, as_str}
use dlc_stack.Api.Http.{
  Method, get, Route, health, request_nonce, contracts, contract, contracts_of, events, event,
  events_of, other, HeaderValue, visible, opaque, Request, Server, Outcome, answered, panicked, Env,
  param, status_forbidden,
}
use dlc_stack.Api.Router.{svc_call}

-- What the check takes from secp256k1 and serde_json.
pub record Crypto : Type 1 where
  pub Signature : Type 0
  pub PublicKey : Type 0
  pub Digest : Type 0
  pub signature_from_str : String → Option Signature
  pub public_key_from_str : String → Option PublicKey
  pub sha256 : String → Digest
  pub verify_ecdsa : Digest → Signature → PublicKey → Bool
  pub json_to_string : Json → String

abbrev pub AuthenticatedQueryParams : Type 0
AuthenticatedQueryParams = record { key : String; signature : String }

-- `AuthenticatedContractQueryParams` and `AuthenticatedEventQueryParams` ask for the same two
-- fields; the others are optional.
abbrev pub query_params : List (String × String) → Option AuthenticatedQueryParams
query_params q = elim (param "key" q) [
  | none ↦ none
  | some k ↦ elim (param "signature" q) [
    | none ↦ none
    | some sig ↦ some (record { key = k; signature = sig })
  ]
]

abbrev pub unprotected : Route → Bool
unprotected health = true
unprotected request_nonce = true
unprotected r = false

-- `p.contains("/event")` and `p.contains("/contract")`; the text of a path parameter has no slash.
abbrev pub contains_event : Route → Bool
contains_event events = true
contains_event event = true
contains_event (events_of ckey) = true
contains_event (other e c) = e
contains_event r = false

abbrev pub contains_contract : Route → Bool
contains_contract contracts = true
contains_contract contract = true
contains_contract (contracts_of ckey) = true
contains_contract (other e c) = c
contains_contract r = false

abbrev pub is_get : Method → Bool
is_get get = true
is_get m = false

-- `*res.response_mut().status_mut() = StatusCode::FORBIDDEN`
abbrev pub set_forbidden : Outcome → Outcome
set_forbidden (answered r s) = answered (record r { status = status_forbidden }) s
set_forbidden (panicked s) = panicked s

-- The body has been taken from the request, so the handler behind sees none.
abbrev pub forbidden_call : Env → Request → Server → Outcome
forbidden_call env req s = set_forbidden (svc_call env (record req { payload = none }) s)

abbrev pub parsed_body : Option Json → Option AuthenticatedMessage
parsed_body none = none
parsed_body (some v) = authenticated_message_of v

module _ (lib : Crypto) where
  abbrev verify_parsed : Option lib.Signature → Option lib.PublicKey → String → Bool
  verify_parsed none key text = false
  verify_parsed (some sig) none text = false
  verify_parsed (some sig) (some key) text = lib.verify_ecdsa (lib.sha256 text) sig key

  -- The result is `is_ok()`: its error is only logged.
  unfoldable pub verify_query_params : String → String → String → Bool
  verify_query_params sig key message =
      verify_parsed (lib.signature_from_str sig) (lib.public_key_from_str key) message

  unfoldable pub verify_body : AuthenticatedMessage → Bool
  verify_body body_json =
      verify_parsed (lib.signature_from_str body_json.signature)
        (lib.public_key_from_str body_json.public_key) (lib.json_to_string body_json.message)

  -- The signature does not hold, or the nonce is not one that was issued.
  abbrev pub query_refused : AuthenticatedQueryParams → String → Server → Bool
  query_refused p header s =
      not (verify_query_params p.signature p.key header)
      || not (exists_in (λ n. n == header) s.nonces)

  -- The GET branches: the handler has run before the check, and keeps its body.
  unfoldable pub call_get :
      Env → String → Option AuthenticatedQueryParams → Request → Server → Outcome
  call_get env header none req s = panicked s
  call_get env header (some p) req s =
      if query_refused p header s then set_forbidden (svc_call env req s) else svc_call env req s

  abbrev pub body_refused : AuthenticatedMessage → String → String → Server → Bool
  body_refused body_json header message_nonce s =
      not (verify_body body_json)
      || (not (exists_in (λ n. n == header) s.nonces) || not (header == message_nonce))

  -- The branch on a body that parses, with the nonce that the message holds.
  unfoldable pub call_signed :
      Env → String → AuthenticatedMessage → Option String → Request → Server → Outcome
  call_signed env header body_json none req s = forbidden_call env req s
  call_signed env header body_json (some message_nonce) req s =
      if body_refused body_json header message_nonce s
      then forbidden_call env req s
      else svc_call env (record req { payload = some body_json.message }) s

  -- POST, PUT and DELETE, and what no GET branch takes.
  unfoldable pub call_body : Env → String → Option AuthenticatedMessage → Request → Server → Outcome
  call_body env header none req s = forbidden_call env req s
  call_body env header (some body_json) req s =
      call_signed env header body_json (as_str (index body_json.message "nonce")) req s

  unfoldable pub call_authorized : Env → Option HeaderValue → Request → Server → Outcome
  call_authorized env none req s = svc_call env req s
  call_authorized env (some opaque) req s = set_forbidden (svc_call env req s)
  call_authorized env (some (visible header)) req s =
      if is_get req.method && (contains_event req.route || contains_contract req.route)
      then call_get env header (query_params req.query) req s
      else call_body env header (parsed_body req.payload) req s

  unfoldable pub call : Env → Request → Server → Outcome
  call env req s =
      if unprotected req.route
      then svc_call env req s
      else call_authorized env req.authorization req s
