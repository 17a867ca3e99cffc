-- ===== src/Api/Auth/Replay.antt =====
-- A nonce serves once: storage/api/src/verify_sigs.rs with the `wrap_fn` of main.rs.
use dlc_stack.Base.{
  String, ◌≡◌, ◌≢◌, refl, false, ◌&&◌, ◌||◌, Option, none, some, List, [], ◌∷◌, inl, inr, arith,
  All, Bool-cases,
}
use dlc_stack.Api.Json.{AuthenticatedMessage, index, as_str}
use dlc_stack.Api.Http.{
  Request, Response, Server, Outcome, answered, panicked, Env, state_of, visible, status_forbidden,
}
use dlc_stack.Api.Router.{svc_call}
use dlc_stack.Api.Router.Effects.{IsSpent, svc_call-IsSpent, svc_call-IsSpent_own}
use dlc_stack.Api.Auth.{
  Crypto, AuthenticatedQueryParams, query_refused, body_refused, call, call_get, call_body,
  call_signed, call_authorized, set_forbidden, query_params, parsed_body, unprotected, is_get,
  contains_event, contains_contract,
}
use dlc_stack.Api.Auth.States.{call_protected, set_forbidden_state, call_cases, call_induction}
use dlc_stack.Api.Consistent.Serve.{serve}

-- The answer is 403, or the handler panicked before it did anything.
abbrev pub IsRefused : Outcome → Type 0
IsRefused (answered r s) = r.status ≡ status_forbidden
IsRefused (panicked s) = Unit

pub set_forbidden-IsRefused : (o : Outcome) → IsRefused (set_forbidden o)
set_forbidden-IsRefused (answered r s) = refl
set_forbidden-IsRefused (panicked s) = tt

module _ (lib : Crypto) (env : Env) (n : String) (req : Request) (s : Server)
    (spent : IsSpent n s.nonces) where
  get-IsRefused : (q : Option AuthenticatedQueryParams) → IsRefused (call_get lib env n q req s)
  unfolding call_get
  get-IsRefused none = tt
  get-IsRefused (some q) = elim (Bool-cases (query_refused lib q n s)) [
    | inl e ↦ rw (e, IsRefused) (set_forbidden-IsRefused (svc_call env req s))
    | inr e ↦ absurd (ground arith)
  ]

  signed-IsRefused :
      (m : AuthenticatedMessage) (o : Option String) → IsRefused (call_signed lib env n m o req s)
  unfolding call_signed
  signed-IsRefused m none = set_forbidden-IsRefused _
  signed-IsRefused m (some k) = elim (Bool-cases (body_refused lib m n k s)) [
    | inl e ↦ rw (e, IsRefused) (set_forbidden-IsRefused _)
    | inr e ↦ absurd (ground arith)
  ]

  body-IsRefused : (m : Option AuthenticatedMessage) → IsRefused (call_body lib env n m req s)
  unfolding call_body
  body-IsRefused none = set_forbidden-IsRefused _
  body-IsRefused (some m) = signed-IsRefused m (as_str (index m.message "nonce"))

  call-IsRefused :
      unprotected req.route ≡ false
      → req.authorization ≡ some (visible n)
      → IsRefused (call lib env req s)
  unfolding call_authorized
  call-IsRefused guarded own =
      rw (call_protected lib env req s (some (visible n)) guarded own)
        (elim (Bool-cases
          (is_get req.method && (contains_event req.route || contains_contract req.route))) [
            | inl e ↦ rw (e, IsRefused) (get-IsRefused (query_params req.query))
            | inr e ↦ rw (e, IsRefused) (body-IsRefused (parsed_body req.payload))
          ])

-- Once a request with the nonce has been answered, that nonce is off the list.
abbrev Used : String → Outcome → Type 0
Used n (answered r s) = IsSpent n s.nonces
Used n (panicked s) = Unit

Used-of_state : (n : String) (o : Outcome) → IsSpent n (state_of o).nonces → Used n o
Used-of_state n (answered r s) h = h
Used-of_state n (panicked s) h = tt

module _ (lib : Crypto) (n : String) where
  call-Used :
      (env : Env) (req : Request) (s : Server)
      → env.random_nonce ≢ n
      → req.authorization ≡ some (visible n)
      → Used n (call lib env req s)
  call-Used env req s fresh own =
      call_cases lib env req s (Used n) tt
        (λ p.
          Used-of_state n _ (svc_call-IsSpent_own env (record req { payload = p }) s n fresh own))
        (λ p. Used-of_state n _ (
          rw set_forbidden_state
            (svc_call-IsSpent_own env (record req { payload = p }) s n fresh own)))

  call-IsSpent :
      (env : Env) (req : Request) (s : Server)
      → env.random_nonce ≢ n
      → IsSpent n s.nonces
      → IsSpent n (state_of (call lib env req s)).nonces
  call-IsSpent env req s fresh spent =
      call_induction lib env req s (λ t. IsSpent n t.nonces) spent
        (λ p. svc_call-IsSpent env (record req { payload = p }) s n fresh spent)

  serve-IsSpent :
      (requests : List (Env × Request)) (s : Server)
      → All (λ r. r.0.random_nonce ≢ n) requests
      → IsSpent n s.nonces
      → IsSpent n (serve lib requests s).nonces
  unfolding serve
  serve-IsSpent [] s fresh spent = spent
  serve-IsSpent ((env, req) ∷ rest) s (fresh, later) spent =
      serve-IsSpent rest (state_of (call lib env req s)) later (call-IsSpent env req s fresh spent)

-- After a request with the nonce `n` has been answered, and after any further requests none of
-- which draws `n` again, every request with the nonce `n` to a protected path is refused, whatever
-- its signature.
pub replay-IsRefused :
    (lib : Crypto) (n : String) (env : Env) (req : Request) (s : Server) (r : Response) (t : Server)
    (between : List (Env × Request)) (env' : Env) (req' : Request)
    → env.random_nonce ≢ n
    → req.authorization ≡ some (visible n)
    → call lib env req s ≡ answered r t
    → All (λ e. e.0.random_nonce ≢ n) between
    → unprotected req'.route ≡ false
    → req'.authorization ≡ some (visible n)
    → IsRefused (call lib env' req' (serve lib between t))
replay-IsRefused lib n env req s r t between env' req' fresh own done later guarded own' =
    let used : Used n (answered r t) = rw done at (call-Used lib n env req s fresh own) in
    call-IsRefused lib env' n req' (serve lib between t) (serve-IsSpent lib n between t later used)
      guarded own'
