-- ===== src/Api/Interleaved/Replayed.antt =====
-- What requests that overlap can do with one nonce.
use mathlib.Core.Path.{subst}
use dlc_stack.Base.{
  ◌≢◌, String, ◌≡◌, refl, ap, ◌∙◌, Option, none, some, [], ◌∷◌, if◌then◌else◌, eq_refl,
}
use dlc_stack.Api.Json.{AuthenticatedMessage}
use dlc_stack.Api.Http.{Request, Server, Outcome, Env, HeaderValue, visible, opaque, state_of}
use dlc_stack.Api.Router.{svc_call}
use dlc_stack.Api.Auth.{
  Crypto, query_params, parsed_body, call, call_get, call_body, call_signed, call_authorized,
  AuthenticatedQueryParams,
}
use dlc_stack.Api.Router.Effects.{IsSpent, svc_call-IsSpent_own}
use dlc_stack.Api.Auth.Soundness.{IsSignedRequest, IsAuthentic}
use dlc_stack.Api.Interleaved.{
  begin, Config, comes, ends, Runs, still, then_step, finish, finish_get, finish_signed,
  finish_body, finish_authorized,
}

module _ (lib : Crypto) (env : Env) (req : Request) (s : Server) where
  get-alike :
      (header : String) (q : Option AuthenticatedQueryParams)
      → call_get lib env header q req s ≡ finish_get lib env (begin req s) header q s
  unfolding call_get finish_get
  get-alike header none = refl
  get-alike header (some q) = refl

  signed-alike :
      (header : String) (m : AuthenticatedMessage) (o : Option String)
      → call_signed lib env header m o req s ≡ finish_signed lib env (begin req s) header m o s
  unfolding call_signed finish_signed
  signed-alike header m none = refl
  signed-alike header m (some n) = refl

  body-alike :
      (header : String) (o : Option AuthenticatedMessage)
      → call_body lib env header o req s ≡ finish_body lib env (begin req s) header o s
  unfolding call_body finish_body
  body-alike header none = refl
  body-alike header (some m) = signed-alike header m _

  authorized-alike :
      (h : Option HeaderValue)
      → call_authorized lib env h req s ≡ finish_authorized lib env (begin req s) h s
  unfolding call_authorized finish_authorized
  authorized-alike none = refl
  authorized-alike (some opaque) = refl
  authorized-alike (some (visible header)) =
      rw (get-alike header (query_params req.query), body-alike header (parsed_body req.payload))
        refl

  -- A request that is finished as it comes in is the call that is not interrupted.
  pub finish-begin : finish lib env (begin req s) s ≡ call lib env req s
  unfolding finish call
  finish-begin = rw (authorized-alike req.authorization) refl

-- The check of a pending request looks at the nonces that it has copied.
finish-authentic :
    (lib : Crypto) (env : Env) (header : String) (req : Request) (s t : Server)
    (m : AuthenticatedMessage)
    → IsSignedRequest header req
    → parsed_body req.payload ≡ some m
    → IsAuthentic lib header s m
    → finish lib env (begin req s) t ≡ svc_call env (record req { payload = some m.message }) t
unfolding finish finish_authorized finish_body finish_signed
finish-authentic lib env header req s t m signed parsed authentic =
    let p = begin req s in
    ap (λ b. if b then svc_call env req t else finish_authorized lib env p req.authorization t)
      signed.guarded
    ∙ ap (λ h. finish_authorized lib env p h t) signed.carries
    ∙ ap
        (λ b.
          if b
          then finish_get lib env p header (query_params req.query) t
          else finish_body lib env p header (parsed_body req.payload) t)
        signed.not_query
    ∙ ap (λ o. finish_body lib env p header o t) parsed
    ∙ ap (λ o. finish_signed lib env p header m o t) authentic.bound
    ∙ rw (authentic.verified, authentic.live, eq_refl header) refl

abbrev pub idle : Server → Config
idle s = record { server = s; pending = []; answers = [] }

abbrev pub both : Outcome → Outcome → Config
both first second = record { server = state_of second; pending = []; answers = second ∷ first ∷ [] }

overlap :
    (lib : Crypto) (env env' : Env) (req : Request) (s : Server)
    → let p = begin req s in
      let first = finish lib env p s in
      Runs lib (idle s) (both first (finish lib env' p (state_of first)))
overlap lib env env' req s =
    let p = begin req s in
    let first = finish lib env p s in
    then_step
      (then_step (then_step (then_step still (comes req (idle s))) (comes req _))
        (ends env [] p (p ∷ []) s []))
      (ends env' [] p [] (state_of first) (first ∷ []))

-- A request to a protected path whose message is authentic can be sent twice, with one nonce, so that
-- both are served: when both come in before one is finished. The nonce is off the list when the
-- second one is served.
pub replayed-IsServed :
    (lib : Crypto) (env env' : Env) (header : String) (req : Request) (s : Server)
    (m : AuthenticatedMessage)
    → IsSignedRequest header req
    → parsed_body req.payload ≡ some m
    → IsAuthentic lib header s m
    → env.random_nonce ≢ header
    → let served = record req { payload = some m.message } in
      let first = svc_call env served s in
      IsSpent header (state_of first).nonces
      × Runs lib (idle s) (both first (svc_call env' served (state_of first)))
replayed-IsServed lib env env' header req s m signed parsed authentic fresh =
    let served : Request = record req { payload = some m.message } in
    let first = svc_call env served s in
    let same = finish-authentic lib env header req s s m signed parsed authentic in
    let same' = finish-authentic lib env' header req s (state_of first) m signed parsed authentic in
    (
      svc_call-IsSpent_own env served s header fresh signed.carries,
      subst (λ o. Runs lib (idle s) (both first o)) same'
          (subst (λ o. Runs lib (idle s) (both o (finish lib env' (begin req s) (state_of o)))) same
            (overlap lib env env' req s)),
    )
