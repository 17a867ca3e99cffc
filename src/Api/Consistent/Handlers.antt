-- ===== src/Api/Consistent/Handlers.antt =====
-- Each handler of storage/api/src/contracts.rs and events.rs, and `request_nonce`, keeps the server
-- consistent.
use dlc_stack.Base.{eq_iff, String, ◌≡◌, refl, [], ◌∷◌, inl, inr, arith, length-append, Bool-cases}
use dlc_stack.Storage.Sql.Unique.{IsUnique-insert_into, IsUnique-update, IsUnique-delete}
use dlc_stack.Storage.Models.{
  NewContract, UpdateContract, DeleteContract, NewEvent, UpdateEvent, DeleteEvent,
  ContractRequestParams, EventRequestParams,
}
use dlc_stack.Storage.Contracts as ContractQueries
use dlc_stack.Storage.Events as EventQueries
use dlc_stack.Api.Contracts
use dlc_stack.Api.Events
use dlc_stack.Api.Http.{Server, Env, state_of}
use dlc_stack.Api.Router.{evict, issue_nonce}
use dlc_stack.Api.Consistent.{
  IsConsistent, evict_lt, with_contracts-IsConsistent, with_events-IsConsistent, created_state,
  changed_state, all_deleted_state, event_created_state, event_changed_state,
  event_all_deleted_state,
}

module _ (env : Env) (s : Server) where
  -- Reads leave the state alone.
  pub get_contracts_state :
      (q : ContractRequestParams) → state_of (Contracts.get_contracts env q s) ≡ s
  unfolding Contracts.get_contracts
  get_contracts_state q = ground arith

  pub get_events_state : (q : EventRequestParams) → state_of (Events.get_events env q s) ≡ s
  unfolding Events.get_events
  get_events_state q = ground arith

module _ (env : Env) {s : Server} (c : IsConsistent s) where
  pub create_contract-IsConsistent :
      (new : NewContract) → IsConsistent (state_of (Contracts.create_contract env new s))
  unfolding Contracts.create_contract ContractQueries.create_contract
  create_contract-IsConsistent new = elim (Bool-cases env.available) [
    | inl e ↦
        rw (e, created_state)
          (with_contracts-IsConsistent c _ (
            IsUnique-insert_into (λ r. r.key) (λ r. r.uuid) env.conn new.key new.uuid
              (ContractQueries.row_of new) s.contracts (λ i. (refl, refl)) c.contracts_unique))
    | inr e ↦ rw e c
  ]

  pub update_contract-IsConsistent :
      (u : UpdateContract) → IsConsistent (state_of (Contracts.update_contract env u s))
  unfolding Contracts.update_contract ContractQueries.update_contract
  update_contract-IsConsistent u = elim (Bool-cases env.available) [
    | inl e ↦
        rw (e, changed_state)
          (with_contracts-IsConsistent c _ (
            IsUnique-update (λ r. r.key) (λ r. r.uuid) (ContractQueries.is_contract u.key u.uuid)
              (ContractQueries.changeset u) (λ r p. ground (arith, eq_iff r.key u.key))
              (λ r p. ground (arith, eq_iff r.uuid u.uuid)) env.conn s.contracts
              c.contracts_unique))
    | inr e ↦ rw e c
  ]

  pub delete_contract-IsConsistent :
      (d : DeleteContract) → IsConsistent (state_of (Contracts.delete_contract env d s))
  unfolding Contracts.delete_contract ContractQueries.delete_contract
  delete_contract-IsConsistent d = elim (Bool-cases env.available) [
    | inl e ↦
        rw (e, changed_state)
          (with_contracts-IsConsistent c _
            (IsUnique-delete (λ r. r.key) (λ r. r.uuid) env.conn _ s.contracts c.contracts_unique))
    | inr e ↦ rw e c
  ]

  pub delete_contracts-IsConsistent :
      (ckey : String) → IsConsistent (state_of (Contracts.delete_contracts env ckey s))
  unfolding Contracts.delete_contracts ContractQueries.delete_all_contracts
  delete_contracts-IsConsistent ckey = elim (Bool-cases env.available) [
    | inl e ↦
        rw (e, all_deleted_state)
          (with_contracts-IsConsistent c _
            (IsUnique-delete (λ r. r.key) (λ r. r.uuid) env.conn _ s.contracts c.contracts_unique))
    | inr e ↦ rw e c
  ]

  pub create_event-IsConsistent :
      (new : NewEvent) → IsConsistent (state_of (Events.create_event env new s))
  unfolding Events.create_event EventQueries.create_event
  create_event-IsConsistent new = elim (Bool-cases env.available) [
    | inl e ↦
        rw (e, event_created_state)
          (with_events-IsConsistent c _ (
            IsUnique-insert_into (λ r. r.key) (λ r. r.event_id) env.conn new.key new.event_id
              (EventQueries.row_of new) s.events (λ i. (refl, refl)) c.events_unique))
    | inr e ↦ rw e c
  ]

  pub update_event-IsConsistent :
      (u : UpdateEvent) → IsConsistent (state_of (Events.update_event env u s))
  unfolding Events.update_event EventQueries.update_event
  update_event-IsConsistent u = elim (Bool-cases env.available) [
    | inl e ↦
        rw (e, event_changed_state)
          (with_events-IsConsistent c _ (
            IsUnique-update (λ r. r.key) (λ r. r.event_id) (EventQueries.is_event u.key u.event_id)
              (EventQueries.changeset u) (λ r p. ground (arith, eq_iff r.key u.key))
              (λ r p. ground (arith, eq_iff r.event_id u.event_id)) env.conn s.events
              c.events_unique))
    | inr e ↦ rw e c
  ]

  pub delete_event-IsConsistent :
      (d : DeleteEvent) → IsConsistent (state_of (Events.delete_event env d s))
  unfolding Events.delete_event EventQueries.delete_event
  delete_event-IsConsistent d = elim (Bool-cases env.available) [
    | inl e ↦
        rw (e, event_changed_state)
          (with_events-IsConsistent c _
            (IsUnique-delete (λ r. r.key) (λ r. r.event_id) env.conn _ s.events c.events_unique))
    | inr e ↦ rw e c
  ]

  pub delete_events-IsConsistent :
      (ckey : String) → IsConsistent (state_of (Events.delete_events env ckey s))
  unfolding Events.delete_events EventQueries.delete_all_events
  delete_events-IsConsistent ckey = elim (Bool-cases env.available) [
    | inl e ↦
        rw (e, event_all_deleted_state)
          (with_events-IsConsistent c _
            (IsUnique-delete (λ r. r.key) (λ r. r.event_id) env.conn _ s.events c.events_unique))
    | inr e ↦ rw e c
  ]

  pub issue_nonce-IsConsistent : IsConsistent (state_of (issue_nonce env s))
  unfolding issue_nonce
  issue_nonce-IsConsistent = record {
    contracts_unique = c.contracts_unique;
    events_unique = c.events_unique;
    nonces_bounded =
        omega (arith, length-append (evict s.nonces) (env.random_nonce ∷ []), evict_lt s.nonces);
  }
