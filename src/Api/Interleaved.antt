-- ===== src/Api/Interleaved.antt =====
-- Requests that overlap: the signature check of storage/api/src/verify_sigs.rs copies the nonces when
-- a request comes in and then waits for its body, and the nonce is taken off by the `wrap_fn` of
-- storage/api/src/main.rs when the request goes on.
pub mod Replayed
mod Tests
use dlc_stack.Base.{
  String, Bool, ◌&&◌, ◌||◌, Option, none, some, List, [], ◌∷◌, ◌++◌, if◌then◌else◌, ◌≡◌, refl, ap,
  ◌∙◌,
}
use dlc_stack.Api.Json.{AuthenticatedMessage, index, as_str}
use dlc_stack.Api.Http.{
  Request, Server, Outcome, panicked, Env, HeaderValue, visible, opaque, state_of,
}
use dlc_stack.Api.Router.{svc_call}
use dlc_stack.Api.Auth.{
  Crypto, AuthenticatedQueryParams, query_params, unprotected, contains_event, contains_contract,
  is_get, set_forbidden, forbidden_call, parsed_body, query_refused, body_refused, call, call_get,
  call_body, call_signed, call_authorized,
}

-- A request that has come in, with the nonces as they were then.
pub record Pending : Type 0 where
  pub request : Request
  pub nonces : List String

abbrev pub begin : Request → Server → Pending
begin req s = record { request = req; nonces = s.nonces }

-- The server as the check of a pending request sees it.
abbrev seen : Pending → Server → Server
seen p s = record s { nonces = p.nonces }

module _ (lib : Crypto) (env : Env) (p : Pending) where
  unfoldable pub finish_get : String → Option AuthenticatedQueryParams → Server → Outcome
  finish_get header none s = panicked s
  finish_get header (some q) s =
      if query_refused lib q header (seen p s)
      then set_forbidden (svc_call env p.request s)
      else svc_call env p.request s

  unfoldable pub finish_signed : String → AuthenticatedMessage → Option String → Server → Outcome
  finish_signed header body_json none s = forbidden_call env p.request s
  finish_signed header body_json (some message_nonce) s =
      if body_refused lib body_json header message_nonce (seen p s)
      then forbidden_call env p.request s
      else svc_call env (record p.request { payload = some body_json.message }) s

  unfoldable pub finish_body : String → Option AuthenticatedMessage → Server → Outcome
  finish_body header none s = forbidden_call env p.request s
  finish_body header (some body_json) s =
      finish_signed header body_json (as_str (index body_json.message "nonce")) s

  unfoldable pub finish_authorized : Option HeaderValue → Server → Outcome
  finish_authorized none s = svc_call env p.request s
  finish_authorized (some opaque) s = set_forbidden (svc_call env p.request s)
  finish_authorized (some (visible header)) s =
      if is_get p.request.method
        && (contains_event p.request.route || contains_contract p.request.route)
      then finish_get header (query_params p.request.query) s
      else finish_body header (parsed_body p.request.payload) s

  -- The rest of a call, on the server as it is then.
  unfoldable pub finish : Server → Outcome
  finish s =
      if unprotected p.request.route
      then svc_call env p.request s
      else finish_authorized p.request.authorization s

-- Requests come in and are finished in any order.
pub record Config : Type 0 where
  pub server : Server
  pub pending : List Pending
  -- the last one first
  pub answers : List Outcome

pub data Step (lib : Crypto) : Config → Config → Type 0 where
  comes :
      (req : Request) (c : Config)
      → Step lib c (record c { pending = begin req c.server ∷ c.pending })
  ends :
      (env : Env) (before : List Pending) (p : Pending) (later : List Pending) (s : Server)
      (answers : List Outcome)
      → Step lib
          (record { server = s; pending = before ++ p ∷ later; answers = answers })
          (record {
            server = state_of (finish lib env p s);
            pending = before ++ later;
            answers = finish lib env p s ∷ answers;
          })

pub data Runs (lib : Crypto) (c : Config) : Config → Type 0 where
  still : Runs lib c c
  then_step : {d e : Config} → Runs lib c d → Step lib d e → Runs lib c e
