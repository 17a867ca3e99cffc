-- ===== src/Api/Auth/Reads.antt =====
-- What a GET of contracts or events shows, and what it has shown.
use dlc_stack.Base.{
  String, ◌≡◌, refl, ap, ◌∙◌, Bool, true, false, ◌&&◌, ◌||◌, ◌⊎◌, Option, none, some, List, [], ◌∷◌,
  inl, inr, arith, if◌then◌else◌, All, keep, Bool-cases, Option-cases, eq_iff, ◌==◌, exists_in,
}
use dlc_stack.Storage.Models.{ContractRequestParams, EventRequestParams}
use dlc_stack.Storage.Contracts as ContractQueries
use dlc_stack.Storage.Events as EventQueries
use dlc_stack.Api.Contracts
use dlc_stack.Api.Events
use dlc_stack.Api.Http.{
  Method, Request, Response, Server, Outcome, answered, panicked, Env, visible, status_forbidden,
  Body, contract_list, event_list, healthy, Route, contracts, events, get, post, put, delete, param,
}
use dlc_stack.Api.Json.{Json}
use dlc_stack.Api.Router.{svc_call, dispatch}
use dlc_stack.Api.Auth.{
  Crypto, AuthenticatedQueryParams, query_refused, verify_query_params, call, call_get, call_body,
  call_authorized, set_forbidden, query_params, parsed_body, unprotected, is_get, contains_event,
  contains_contract,
}
use dlc_stack.Api.Auth.States.{call_protected}

-- Every row of the body has the key.
abbrev pub RowsOf : String → Body → Type 0
RowsOf k (contract_list rows) = All (λ c. c.key ≡ k) rows
RowsOf k (event_list rows) = All (λ e. e.key ≡ k) rows
RowsOf k healthy = Unit
RowsOf k b = Unit

abbrev pub Shows : String → Outcome → Type 0
Shows k (answered r s) = RowsOf k r.body
Shows k (panicked s) = Unit

set_forbidden-Shows : (k : String) (o : Outcome) → Shows k o → Shows k (set_forbidden o)
set_forbidden-Shows k (answered r s) h = h
set_forbidden-Shows k (panicked s) h = h

keep-All_key :
    {A : Type 0} (key : A → String) (k : String) (p : A → Bool) (rows : List A)
    → ((x : A) → p x ≡ true → key x ≡ k)
    → All (λ x. key x ≡ k) (keep p rows)
keep-All_key key k p [] own = tt
keep-All_key key k p (x ∷ rows) own = elim (Bool-cases (p x)) [
  | inl e ↦ rw e (own x e, keep-All_key key k p rows own)
  | inr e ↦ rw e (keep-All_key key k p rows own)
]

module _ (env : Env) (s : Server) where
  contracts-Shows : (q : ContractRequestParams) → Shows q.key (Contracts.get_contracts env q s)
  unfolding Contracts.get_contracts ContractQueries.get_contracts
  contracts-Shows q = elim (Bool-cases env.available) [
    | inr e ↦ rw (e, Shows) tt
    | inl e ↦ elim (Option-cases env.conn) [
      | inr (f, e') ↦ rw (e, e', Shows) tt
      | inl e' ↦
          rw (e, e', Shows)
            (keep-All_key (λ c. c.key) q.key (ContractQueries.query q) s.contracts.rows
              (λ c h. ground (arith, eq_iff c.key q.key)))
    ]
  ]

  events-Shows : (q : EventRequestParams) → Shows q.key (Events.get_events env q s)
  unfolding Events.get_events EventQueries.get_events
  events-Shows q = elim (Bool-cases env.available) [
    | inr e ↦ rw (e, Shows) tt
    | inl e ↦ elim (Option-cases env.conn) [
      | inr (f, e') ↦ rw (e, e', Shows) tt
      | inl e' ↦
          rw (e, e', Shows)
            (keep-All_key (λ v. v.key) q.key (EventQueries.query q) s.events.rows
              (λ v h. ground (arith, eq_iff v.key q.key)))
    ]
  ]

abbrev pub IsListing : Route → Type 0
IsListing contracts = Unit
IsListing events = Unit
IsListing r = ⊥

key_of_query_params :
    (q : List (String × String)) (p : AuthenticatedQueryParams)
    → query_params q ≡ some p
    → param "key" q ≡ some p.key
key_of_query_params q p e = ground arith

dispatch-Shows :
    (env : Env) (m : Method) (r : Route) (q : List (String × String)) (p : Option Json) (k : String)
    (s : Server)
    → m ≡ get
    → IsListing r
    → param "key" q ≡ some k
    → Shows k (dispatch env m r q p s)
unfolding dispatch
dispatch-Shows env get contracts q p k s g l e = rw (e, Shows) (contracts-Shows env s _)
dispatch-Shows env get events q p k s g l e = rw (e, Shows) (events-Shows env s _)
dispatch-Shows env post r q p k s g l e = absurd (cc g)
dispatch-Shows env put r q p k s g l e = absurd (cc g)
dispatch-Shows env delete r q p k s g l e = absurd (cc g)
dispatch-Shows env get r q p k s g l e = absurd l

is_get_query :
    (m : Method) (r : Route)
    → m ≡ get
    → IsListing r
    → (is_get m && (contains_event r || contains_contract r)) ≡ true
is_get_query get contracts g l = refl
is_get_query get events g l = refl
is_get_query post r g l = absurd (cc g)
is_get_query put r g l = absurd (cc g)
is_get_query delete r g l = absurd (cc g)
is_get_query get r g l = absurd l

protected_listing : (r : Route) → IsListing r → unprotected r ≡ false
protected_listing contracts l = refl
protected_listing events l = refl
protected_listing r l = absurd l

-- The signature verifies under the key of the query, over the nonce of the header, which is on the
-- list.
abbrev pub IsAllowed : Crypto → String → AuthenticatedQueryParams → Server → Type 0
IsAllowed lib header q s =
    (verify_query_params lib q.signature q.key header ≡ true)
    × (exists_in (λ n. n == header) s.nonces ≡ true)

module _ (lib : Crypto) (env : Env) (header : String) (req : Request) (s : Server)
    (is_a_get : req.method ≡ get) (listing : IsListing req.route)
    (own : req.authorization ≡ some (visible header)) where
  pub call-eq-call_get : call lib env req s ≡ call_get lib env header (query_params req.query) req s
  unfolding call_authorized
  call-eq-call_get =
      call_protected lib env req s (some (visible header)) (protected_listing req.route listing) own
      ∙ ap
          (λ b.
            if b
            then call_get lib env header (query_params req.query) req s
            else call_body lib env header (parsed_body req.payload) req s)
          (is_get_query req.method req.route is_a_get listing)

  svc_call-Shows :
      (q : AuthenticatedQueryParams)
      → query_params req.query ≡ some q
      → Shows q.key (svc_call env req s)
  unfolding svc_call
  svc_call-Shows q e =
      dispatch-Shows env req.method req.route req.query req.payload q.key _ is_a_get listing
        (key_of_query_params req.query q e)

  abbrev Shown : Response → Type 0
  Shown r =
      (q : AuthenticatedQueryParams) × (query_params req.query ≡ some q)
      × RowsOf q.key r.body
      × ((r.status ≡ status_forbidden) ⊎ IsAllowed lib header q s)

  abbrev ShownBy : Outcome → Type 0
  ShownBy (answered r t) = Shown r
  ShownBy (panicked t) = Unit

  ShownBy-forbidden :
      (q : AuthenticatedQueryParams) (o : Outcome)
      → query_params req.query ≡ some q
      → Shows q.key o
      → ShownBy (set_forbidden o)
  ShownBy-forbidden q (answered r t) e h = (q, e, h, inl refl)
  ShownBy-forbidden q (panicked t) e h = tt

  ShownBy-allowed :
      (q : AuthenticatedQueryParams) (o : Outcome)
      → query_params req.query ≡ some q
      → Shows q.key o
      → IsAllowed lib header q s
      → ShownBy o
  ShownBy-allowed q (answered r t) e h a = (q, e, h, inr a)
  ShownBy-allowed q (panicked t) e h a = tt

  call_get-ShownBy :
      (o : Option AuthenticatedQueryParams)
      → query_params req.query ≡ o
      → ShownBy (call_get lib env header o req s)
  unfolding call_get
  call_get-ShownBy none e = tt
  call_get-ShownBy (some q) e = elim (Bool-cases (query_refused lib q header s)) [
    | inl b ↦ rw (b, ShownBy) (ShownBy-forbidden q (svc_call env req s) e (svc_call-Shows q e))
    | inr b ↦
        rw (b, ShownBy)
          (ShownBy-allowed q (svc_call env req s) e (svc_call-Shows q e)
            (ground arith, ground arith))
  ]

-- An answered GET of contracts or events with a readable header had a key in its query, and its
-- body has rows of that key only. If its status is not 403, the query's signature verifies under
-- that key over the header's nonce, and the nonce was on the list.
pub listing-is_own :
    (lib : Crypto) (env : Env) (header : String) (req : Request) (s : Server) (r : Response)
    (t : Server)
    → req.method ≡ get
    → IsListing req.route
    → req.authorization ≡ some (visible header)
    → call lib env req s ≡ answered r t
    → (q : AuthenticatedQueryParams) × (query_params req.query ≡ some q)
      × RowsOf q.key r.body
      × ((r.status ≡ status_forbidden) ⊎ IsAllowed lib header q s)
listing-is_own lib env header req s r t g l own done =
    let shown : ShownBy lib env header req s g l own (call lib env req s) =
      rw (call-eq-call_get lib env header req s g l own)
        (call_get-ShownBy lib env header req s g l own _ refl) in
    rw done at shown
