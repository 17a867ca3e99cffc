-- ===== src/Api/Auth/States.antt =====
-- Which states the signature check of storage/api/src/verify_sigs.rs can leave.
use dlc_stack.Base.{
  ap, ◌∙◌, String, ◌≡◌, refl, Bool, true, false, ◌&&◌, ◌||◌, Option, none, some, if◌then◌else◌,
}
use dlc_stack.Api.Json.{Json, AuthenticatedMessage, index, as_str}
use dlc_stack.Api.Http.{
  Request, Server, Outcome, answered, panicked, Env, state_of, HeaderValue, visible, opaque,
}
use dlc_stack.Api.Router.{svc_call}
use dlc_stack.Api.Auth.{
  Crypto, AuthenticatedQueryParams, query_refused, body_refused, forbidden_call, is_get,
  contains_event, contains_contract, call, call_get, call_body, call_signed, call_authorized,
  set_forbidden, query_params, parsed_body, unprotected,
}

pub set_forbidden_state : (o : Outcome) → state_of (set_forbidden o) ≡ state_of o
set_forbidden_state (answered r s) = refl
set_forbidden_state (panicked s) = refl

-- The answers that a check can give: a panic before anything ran, or the answer behind the check
-- for some body that is passed on, with its own status or with 403.
module _ (lib : Crypto) (env : Env) (req : Request) (s : Server) (P : Outcome → Type 0)
    (here : P (panicked s))
    (behind : (p : Option Json) → P (svc_call env (record req { payload = p }) s))
    (refused : (p : Option Json)
      → P (set_forbidden (svc_call env (record req { payload = p }) s))) where
  either : (b : Bool) (x y : Outcome) → P x → P y → P (if b then x else y)
  either true x y h k = h
  either false x y h k = k

  at_get :
      (header : String) (q : Option AuthenticatedQueryParams) → P (call_get lib env header q req s)
  unfolding call_get
  at_get header none = here
  at_get header (some q) =
      either (query_refused lib q header s) (set_forbidden (svc_call env req s))
        (svc_call env req s) (refused req.payload) (behind req.payload)

  at_signed :
      (header : String) (m : AuthenticatedMessage) (o : Option String)
      → P (call_signed lib env header m o req s)
  unfolding call_signed
  at_signed header m none = refused none
  at_signed header m (some n) =
      either (body_refused lib m header n s) (forbidden_call env req s)
        (svc_call env (record req { payload = some m.message }) s) (refused none)
        (behind (some m.message))

  at_body :
      (header : String) (m : Option AuthenticatedMessage) → P (call_body lib env header m req s)
  unfolding call_body
  at_body header none = refused none
  at_body header (some m) = at_signed header m (as_str (index m.message "nonce"))

  at_authorized : (h : Option HeaderValue) → P (call_authorized lib env h req s)
  unfolding call_authorized
  at_authorized none = behind req.payload
  at_authorized (some opaque) = refused req.payload
  at_authorized (some (visible header)) =
      either (is_get req.method && (contains_event req.route || contains_contract req.route))
        (call_get lib env header (query_params req.query) req s)
        (call_body lib env header (parsed_body req.payload) req s)
        (at_get header (query_params req.query)) (at_body header (parsed_body req.payload))

  pub call_cases : P (call lib env req s)
  unfolding call
  call_cases =
      either (unprotected req.route) (svc_call env req s)
        (call_authorized lib env req.authorization req s) (behind req.payload)
        (at_authorized req.authorization)

-- What holds of the state before, and of every state behind the check, holds of the state after.
pub call_induction :
    (lib : Crypto) (env : Env) (req : Request) (s : Server) (P : Server → Type 0)
    → P s
    → ((p : Option Json) → P (state_of (svc_call env (record req { payload = p }) s)))
    → P (state_of (call lib env req s))
call_induction lib env req s P here behind =
    call_cases lib env req s (λ o. P (state_of o)) here behind
      (λ p. rw set_forbidden_state (behind p))

-- On a protected path the answer is that of the header.
pub call_protected :
    (lib : Crypto) (env : Env) (req : Request) (s : Server) (h : Option HeaderValue)
    → unprotected req.route ≡ false
    → req.authorization ≡ h
    → call lib env req s ≡ call_authorized lib env h req s
unfolding call
call_protected lib env req s h guarded own =
    ap (λ b. if b then svc_call env req s else call_authorized lib env req.authorization req s)
      guarded
    ∙ ap (λ a. call_authorized lib env a req s) own
