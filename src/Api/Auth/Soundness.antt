-- ===== src/Api/Auth/Soundness.antt =====
-- What a request has shown when the signature check lets it through, and what a refused one can
-- still do.
use dlc_stack.Base.{
  String, ◌≡◌, refl, ap, ◌∙◌, true, false, ◌&&◌, ◌||◌, Option, none, some, inl, inr, arith,
  if◌then◌else◌, Bool-cases, eq_iff, eq_refl, ◌==◌, exists_in,
}
use dlc_stack.Api.Json.{AuthenticatedMessage, index, as_str}
use dlc_stack.Api.Http.{Request, Server, Env, visible}
use dlc_stack.Api.Router.{svc_call}
use dlc_stack.Api.Auth.{
  Crypto, body_refused, verify_body, call, call_get, call_body, call_signed, call_authorized,
  query_params, parsed_body, unprotected, is_get, contains_event, contains_contract,
}
use dlc_stack.Api.Auth.States.{call_protected}
use dlc_stack.Api.Auth.Replay.{IsRefused, set_forbidden-IsRefused}

-- A request that the check holds to a signed body: a protected path, a readable header, and none
-- of the GET branches.
pub record IsSignedRequest (header : String) (req : Request) : Type 0 where
  pub guarded : unprotected req.route ≡ false
  pub carries : req.authorization ≡ some (visible header)
  pub not_query :
      (is_get req.method && (contains_event req.route || contains_contract req.route)) ≡ false

-- The message is signed by the key that comes with it, and holds the header's nonce, which the
-- server has issued and not seen since.
pub record IsAuthentic (lib : Crypto) (header : String) (s : Server) (m : AuthenticatedMessage)
    : Type 0 where
  pub verified : verify_body lib m ≡ true
  pub live : exists_in (λ n. n == header) s.nonces ≡ true
  pub bound : as_str (index m.message "nonce") ≡ some header

module _ (lib : Crypto) (env : Env) (header : String) (req : Request) (s : Server) where
  pub call-eq-call_body :
      IsSignedRequest header req
      → call lib env req s ≡ call_body lib env header (parsed_body req.payload) req s
  unfolding call_authorized
  call-eq-call_body q =
      call_protected lib env req s (some (visible header)) q.guarded q.carries
      ∙ ap
          (λ b.
            if b
            then call_get lib env header (query_params req.query) req s
            else call_body lib env header (parsed_body req.payload) req s)
          q.not_query

  IsAuthentic-signed :
      (m : AuthenticatedMessage) (o : Option String)
      → as_str (index m.message "nonce") ≡ o
      → ¬ IsRefused (call_signed lib env header m o req s)
      → IsAuthentic lib header s m
  unfolding call_signed
  IsAuthentic-signed m none e h = absurd (h (set_forbidden-IsRefused _))
  IsAuthentic-signed m (some k) e h = elim (Bool-cases (body_refused lib m header k s)) [
    | inl b ↦ absurd (h (rw (b, IsRefused) (set_forbidden-IsRefused _)))
    | inr b ↦ record {
      verified = ground arith;
      live = ground arith;
      bound = ground (arith, eq_iff header k);
    }
  ]

  IsAuthentic-body :
      (o : Option AuthenticatedMessage)
      → parsed_body req.payload ≡ o
      → ¬ IsRefused (call_body lib env header o req s)
      → (m : AuthenticatedMessage) × (parsed_body req.payload ≡ some m) × IsAuthentic lib header s m
  unfolding call_body
  IsAuthentic-body none e h = absurd (h (set_forbidden-IsRefused _))
  IsAuthentic-body (some m) e h = (m, e, IsAuthentic-signed m _ refl h)

  call_signed_of_authentic :
      (m : AuthenticatedMessage)
      → IsAuthentic lib header s m
      → call_signed lib env header m (as_str (index m.message "nonce")) req s
        ≡ svc_call env (record req { payload = some m.message }) s
  unfolding call_signed
  call_signed_of_authentic m a = rw a.bound (rw (a.verified, a.live, eq_refl))

-- A request to a protected path whose body the check has to verify is answered with another status
-- than 403 only if its body is a message whose signature verifies under the key that comes with
-- it, and whose nonce is that of the header and is on the server's list.
pub accepted-IsAuthentic :
    (lib : Crypto) (env : Env) (header : String) (req : Request) (s : Server)
    → IsSignedRequest header req
    → ¬ IsRefused (call lib env req s)
    → (m : AuthenticatedMessage) × (parsed_body req.payload ≡ some m) × IsAuthentic lib header s m
accepted-IsAuthentic lib env header req s q h =
    IsAuthentic-body lib env header req s (parsed_body req.payload) refl
      (rw (call-eq-call_body lib env header req s q) at h)

-- A request with an authentic message gets the answer, and leaves the state, of its handler on
-- that message.
pub authentic-runs :
    (lib : Crypto) (env : Env) (header : String) (req : Request) (s : Server)
    (m : AuthenticatedMessage)
    → IsSignedRequest header req
    → parsed_body req.payload ≡ some m
    → IsAuthentic lib header s m
    → call lib env req s ≡ svc_call env (record req { payload = some m.message }) s
unfolding call_body
authentic-runs lib env header req s m q e a =
    rw (call-eq-call_body lib env header req s q, e)
      (call_signed_of_authentic lib env header req s m a)
