-- ===== src/Api/Router/Effects.antt =====
-- What a handler behind the signature check leaves alone.
use dlc_stack.Base.{
  String, ◌≡◌, ◌≢◌, refl, Bool, false, not, Option, none, some, List, [], ◌∷◌, ◌++◌, inl, inr,
  arith, ◌==◌, eq_iff, keep, exists_in, Bool-cases, Option-cases,
}
use dlc_stack.Storage.Models.{
  NewContract, UpdateContract, DeleteContract, NewEvent, UpdateEvent, DeleteEvent,
}
use dlc_stack.Api.Json.{
  Json, new_contract_of, update_contract_of, delete_contract_of, new_event_of, update_event_of,
  delete_event_of,
}
use dlc_stack.Api.Contracts
use dlc_stack.Api.Events
use dlc_stack.Api.Http.{
  Method, get, post, put, delete, Route, request_nonce, contracts, contract, contracts_of, events,
  event, events_of, HeaderValue, visible, opaque, Request, Server, Outcome, Env, state_of,
}
use dlc_stack.Api.Router.{
  evict, issue_nonce, retain, extract, body_as, contract_query, event_query, dispatch, svc_call,
}
use dlc_stack.Api.Consistent.{
  created_state, changed_state, all_deleted_state, event_created_state, event_changed_state,
  event_all_deleted_state,
}
use dlc_stack.Api.Consistent.Handlers.{get_contracts_state, get_events_state}

-- Every handler but `request_nonce` keeps the nonces.
abbrev SameNonces : Server → Outcome → Type 0
SameNonces s o = (state_of o).nonces ≡ s.nonces

module _ (env : Env) (s : Server) where
  nonces-create_contract : (new : NewContract) → SameNonces s (Contracts.create_contract env new s)
  unfolding Contracts.create_contract
  nonces-create_contract new = elim (Bool-cases env.available) [
    | inl e ↦ rw (e, created_state)
    | inr e ↦ rw e
  ]

  nonces-update_contract : (u : UpdateContract) → SameNonces s (Contracts.update_contract env u s)
  unfolding Contracts.update_contract
  nonces-update_contract u = elim (Bool-cases env.available) [
    | inl e ↦ rw (e, changed_state)
    | inr e ↦ rw e
  ]

  nonces-delete_contract : (d : DeleteContract) → SameNonces s (Contracts.delete_contract env d s)
  unfolding Contracts.delete_contract
  nonces-delete_contract d = elim (Bool-cases env.available) [
    | inl e ↦ rw (e, changed_state)
    | inr e ↦ rw e
  ]

  nonces-delete_contracts : (ckey : String) → SameNonces s (Contracts.delete_contracts env ckey s)
  unfolding Contracts.delete_contracts
  nonces-delete_contracts ckey = elim (Bool-cases env.available) [
    | inl e ↦ rw (e, all_deleted_state)
    | inr e ↦ rw e
  ]

  nonces-create_event : (new : NewEvent) → SameNonces s (Events.create_event env new s)
  unfolding Events.create_event
  nonces-create_event new = elim (Bool-cases env.available) [
    | inl e ↦ rw (e, event_created_state)
    | inr e ↦ rw e
  ]

  nonces-update_event : (u : UpdateEvent) → SameNonces s (Events.update_event env u s)
  unfolding Events.update_event
  nonces-update_event u = elim (Bool-cases env.available) [
    | inl e ↦ rw (e, event_changed_state)
    | inr e ↦ rw e
  ]

  nonces-delete_event : (d : DeleteEvent) → SameNonces s (Events.delete_event env d s)
  unfolding Events.delete_event
  nonces-delete_event d = elim (Bool-cases env.available) [
    | inl e ↦ rw (e, event_changed_state)
    | inr e ↦ rw e
  ]

  nonces-delete_events : (ckey : String) → SameNonces s (Events.delete_events env ckey s)
  unfolding Events.delete_events
  nonces-delete_events ckey = elim (Bool-cases env.available) [
    | inl e ↦ rw (e, event_all_deleted_state)
    | inr e ↦ rw e
  ]

  nonces-extract :
      {A : Type 0} (o : Option A) (handler : A → Server → Outcome)
      → ((a : A) → SameNonces s (handler a s))
      → SameNonces s (extract o handler s)
  nonces-extract none handler same = refl
  nonces-extract (some a) handler same = same a

-- The nonce `n` is not on the list.
abbrev pub IsSpent : String → List String → Type 0
IsSpent n ns = exists_in (λ m. m == n) ns ≡ false

IsSpent-append : (n m : String) (ns : List String) → IsSpent n ns → m ≢ n → IsSpent n (ns ++ m ∷ [])
IsSpent-append n m [] h k = ground (arith, eq_iff m n)
IsSpent-append n m (x ∷ ns) h k = ground (arith, IsSpent-append n m ns)

IsSpent-evict : (n : String) (ns : List String) → IsSpent n ns → IsSpent n (evict ns)
unfolding evict
IsSpent-evict n [] h = h
IsSpent-evict n (x ∷ ns) h = ground (arith, IsSpent-evict n ns)

IsSpent-keep :
    (n : String) (p : String → Bool) (ns : List String) → IsSpent n ns → IsSpent n (keep p ns)
IsSpent-keep n p [] h = h
IsSpent-keep n p (x ∷ ns) h = ground (arith, IsSpent-keep n p ns)

IsSpent-retain :
    (n : String) (h : Option HeaderValue) (ns : List String)
    → IsSpent n ns
    → IsSpent n (retain h ns)
IsSpent-retain n none ns e = e
IsSpent-retain n (some opaque) ns e = e
IsSpent-retain n (some (visible h)) ns e = IsSpent-keep n (λ m. not (m == h)) ns e

-- `retain` takes every copy of the nonce off the list.
retain-IsSpent : (n : String) (ns : List String) → IsSpent n (retain (some (visible n)) ns)
retain-IsSpent n [] = refl
retain-IsSpent n (x ∷ ns) = ground (arith, retain-IsSpent n ns)

module _ (env : Env) (s : Server) (n : String) (fresh : env.random_nonce ≢ n)
    (spent : IsSpent n s.nonces) where
  issue_nonce-IsSpent : IsSpent n (state_of (issue_nonce env s)).nonces
  unfolding issue_nonce
  issue_nonce-IsSpent =
      IsSpent-append n env.random_nonce (evict s.nonces) (IsSpent-evict n s.nonces spent) fresh

  dispatch-IsSpent :
      (m : Method) (r : Route) (q : List (String × String)) (p : Option Json)
      → IsSpent n (state_of (dispatch env m r q p s)).nonces
  unfolding dispatch
  dispatch-IsSpent get request_nonce q p = issue_nonce-IsSpent
  dispatch-IsSpent get contracts q p =
      rw
        (nonces-extract env s (contract_query q) (Contracts.get_contracts env)
          (λ a. rw (get_contracts_state env s a)))
        spent
  dispatch-IsSpent get events q p =
      rw
        (nonces-extract env s (event_query q) (Events.get_events env)
          (λ a. rw (get_events_state env s a)))
        spent
  dispatch-IsSpent post contracts q p =
      rw
        (nonces-extract env s (body_as new_contract_of p) (Contracts.create_contract env)
          (nonces-create_contract env s))
        spent
  dispatch-IsSpent put contracts q p =
      rw
        (nonces-extract env s (body_as update_contract_of p) (Contracts.update_contract env)
          (nonces-update_contract env s))
        spent
  dispatch-IsSpent delete contract q p =
      rw
        (nonces-extract env s (body_as delete_contract_of p) (Contracts.delete_contract env)
          (nonces-delete_contract env s))
        spent
  dispatch-IsSpent post events q p =
      rw
        (nonces-extract env s (body_as new_event_of p) (Events.create_event env)
          (nonces-create_event env s))
        spent
  dispatch-IsSpent put events q p =
      rw
        (nonces-extract env s (body_as update_event_of p) (Events.update_event env)
          (nonces-update_event env s))
        spent
  dispatch-IsSpent delete event q p =
      rw
        (nonces-extract env s (body_as delete_event_of p) (Events.delete_event env)
          (nonces-delete_event env s))
        spent
  dispatch-IsSpent delete (contracts_of ckey) q p = rw (nonces-delete_contracts env s ckey) spent
  dispatch-IsSpent delete (events_of ckey) q p = rw (nonces-delete_events env s ckey) spent
  dispatch-IsSpent m r q p = spent

-- A nonce that is not on the list stays off it, unless it is drawn again.
pub svc_call-IsSpent :
    (env : Env) (req : Request) (s : Server) (n : String)
    → env.random_nonce ≢ n
    → IsSpent n s.nonces
    → IsSpent n (state_of (svc_call env req s)).nonces
unfolding svc_call
svc_call-IsSpent env req s n fresh spent =
    dispatch-IsSpent env (record s { nonces = retain req.authorization s.nonces }) n fresh
      (IsSpent-retain n req.authorization s.nonces spent) req.method req.route req.query req.payload

-- Once the layers behind the check have run, the request's own nonce is off the list.
pub svc_call-IsSpent_own :
    (env : Env) (req : Request) (s : Server) (n : String)
    → env.random_nonce ≢ n
    → req.authorization ≡ some (visible n)
    → IsSpent n (state_of (svc_call env req s)).nonces
unfolding svc_call
svc_call-IsSpent_own env req s n fresh own =
    dispatch-IsSpent env (record s { nonces = retain req.authorization s.nonces }) n fresh
      (rw own (retain-IsSpent n s.nonces)) req.method req.route req.query req.payload

-- The tables are as they were.
abbrev pub SameTables : Server → Server → Type 0
SameTables s t = (t.contracts ≡ s.contracts) × (t.events ≡ s.events)

abbrev pub IsBulkDelete : Route → Type 0
IsBulkDelete (contracts_of ckey) = Unit
IsBulkDelete (events_of ckey) = Unit
IsBulkDelete r = ⊥

-- Without a body no handler changes a table, but for the two that take the key from the path.
pub dispatch-SameTables :
    (env : Env) (m : Method) (r : Route) (q : List (String × String)) (s : Server)
    → ¬ IsBulkDelete r
    → SameTables s (state_of (dispatch env m r q none s))
unfolding dispatch issue_nonce
dispatch-SameTables env get contracts q s h = elim (Option-cases (contract_query q)) [
  | inl e ↦ rw e (refl, refl)
  | inr (a, e) ↦ rw (e, get_contracts_state env s a) (refl, refl)
]
dispatch-SameTables env get events q s h = elim (Option-cases (event_query q)) [
  | inl e ↦ rw e (refl, refl)
  | inr (a, e) ↦ rw (e, get_events_state env s a) (refl, refl)
]
dispatch-SameTables env m (contracts_of ckey) q s h = absurd (h tt)
dispatch-SameTables env m (events_of ckey) q s h = absurd (h tt)
dispatch-SameTables env post contracts q s h = (refl, refl)
dispatch-SameTables env put contracts q s h = (refl, refl)
dispatch-SameTables env delete contract q s h = (refl, refl)
dispatch-SameTables env post events q s h = (refl, refl)
dispatch-SameTables env put events q s h = (refl, refl)
dispatch-SameTables env delete event q s h = (refl, refl)
dispatch-SameTables env get request_nonce q s h = (refl, refl)
dispatch-SameTables env m r q s h = (refl, refl)
