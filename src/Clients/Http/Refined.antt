-- ===== src/Clients/Http/Refined.antt =====
-- The client's calls over HTTP against the server's own queries on its table of contracts.
use dlc_stack.Base.{
  ℕ, zero, suc, String, ◌≡◌, refl, sym, ap, ◌∙◌, true, Option, none, some, Result, ok, err, map_err,
}
use dlc_stack.Storage.Sql.{load, DbError, Table}
use dlc_stack.Storage.Contracts
use dlc_stack.Storage.Models.{
  NewContract, Contract, UpdateContract, DeleteContract, ContractRequestParams,
}
use dlc_stack.Api.Json.{update_contract_of, delete_contract_of, new_contract_of, insert, lookup}
use dlc_stack.Api.Http.{Request, get, post, put, delete, Env, Server, visible, contracts, contract}
use dlc_stack.Api.Router.{dispatch, extract, contract_query, svc_call, evict}
use dlc_stack.Api.Contracts as Handlers
use dlc_stack.Api.Auth.{Crypto, query_params, verify_query_params, call_get}
use dlc_stack.Api.Auth.Reads.{call-eq-call_get}
use dlc_stack.Clients.Api.{ApiError, Stateful, continue, lift, tables, effected, undecodable}
use dlc_stack.Clients.Api
use dlc_stack.Clients.Http.{
  Signer, Site, with_nonce, update_contract_json, delete_contract_json, new_contract_json,
  over_http, create_contract, build_signed_message, as_contract, signed_params, get_contracts,
  as_contract_list, as_effected_num, put_contract, remove_contract, send,
}
use dlc_stack.Clients.Http.Served.{
  answer, IsHonest, fetch_nonce-issued, served, noncing, signed-runs, issued,
}
use dlc_stack.Clients.Refines.{Refines, RefinesApi, value_of, value_of-map_err}

-- The table of contracts behind a site.
abbrev pub contracts_at : Site → Table Contract
contracts_at site = site.server.contracts

-- What the server decodes of a request with its nonce is what the client encoded.
pub new_contract_of-json :
    (n : String) (new : NewContract)
    → new_contract_of (with_nonce n (new_contract_json new)) ≡ some new
unfolding new_contract_of insert lookup
new_contract_of-json n new = refl

option_field-nullable :
    (uuid key n : String) (state content : Option String)
    → update_contract_of (
        with_nonce n (
          update_contract_json
            (record { uuid = uuid; state = state; content = content; key = key })))
      ≡ some (record { uuid = uuid; state = state; content = content; key = key })
unfolding update_contract_of insert lookup
option_field-nullable uuid key n none none = refl
option_field-nullable uuid key n none (some c) = refl
option_field-nullable uuid key n (some s) none = refl
option_field-nullable uuid key n (some s) (some c) = refl

pub update_contract_of-json :
    (n : String) (u : UpdateContract)
    → update_contract_of (with_nonce n (update_contract_json u)) ≡ some u
update_contract_of-json n u = option_field-nullable u.uuid u.key n u.state u.content

pub delete_contract_of-json :
    (n : String) (d : DeleteContract)
    → delete_contract_of (with_nonce n (delete_contract_json d)) ≡ some d
unfolding delete_contract_of insert lookup
delete_contract_of-json n d = refl

query_params-signed :
    (signature key : String) (uuid state : Option String)
    → let q = signed_params (record { key = key; uuid = uuid; state = state }) signature in
      (query_params q ≡ some (record { key = key; signature = signature }))
      × (contract_query q ≡ some (record { key = key; uuid = uuid; state = state }))
query_params-signed signature key none none = (refl, refl)
query_params-signed signature key none (some s) = (refl, refl)
query_params-signed signature key (some u) none = (refl, refl)
query_params-signed signature key (some u) (some s) = (refl, refl)

module _ (lib : Crypto) (signer : Signer) (env : ℕ → Env) (honest : IsHonest lib signer env) where
  abbrev at_rest : Site → Server
  at_rest s = served lib signer env honest s

  abbrev twice : Site → ℕ
  twice s = suc (suc s.sent)

  create-served :
      (new : NewContract) (s : Site)
      → create_contract lib signer env new s
        ≡ answer "Create contract failed" as_contract
            (Handlers.created (at_rest s) (Contracts.create_contract none new s.server.contracts))
            (twice s)
  unfolding create_contract build_signed_message dispatch Handlers.create_contract
  create-served new s =
      rw
        (
          fetch_nonce-issued lib signer env honest s,
          signed-runs lib signer env honest s post contracts _ refl refl,
          honest.available,
          honest.answers,
          new_contract_of-json (env s.sent).random_nonce new,
        )
        refl

  put-served :
      (u : UpdateContract) (s : Site)
      → put_contract lib signer env u s
        ≡ answer "Updating contract failed" as_effected_num
            (Handlers.changed (at_rest s) (Contracts.update_contract none u s.server.contracts))
            (twice s)
  unfolding put_contract build_signed_message dispatch Handlers.update_contract
  put-served u s =
      rw
        (
          fetch_nonce-issued lib signer env honest s,
          signed-runs lib signer env honest s put contracts _ refl refl,
          honest.available,
          honest.answers,
          update_contract_of-json (env s.sent).random_nonce u,
        )
        refl

  remove-served :
      (d : DeleteContract) (s : Site)
      → remove_contract lib signer env d s
        ≡ answer "Deleting contract failed" as_effected_num
            (Handlers.changed (at_rest s) (Contracts.delete_contract none d s.server.contracts))
            (twice s)
  unfolding remove_contract build_signed_message dispatch Handlers.delete_contract
  remove-served d s =
      rw
        (
          fetch_nonce-issued lib signer env honest s,
          signed-runs lib signer env honest s delete contract _ refl refl,
          honest.available,
          honest.answers,
          delete_contract_of-json (env s.sent).random_nonce d,
        )
        refl

  -- The row that an insertion made, or the error, on both sides.
  created-Refines :
      (s : Site) (q : Result DbError Contract × Table Contract) (n : ℕ)
      → (value_of (answer "Create contract failed" as_contract (Handlers.created (at_rest s) q) n).0
          ≡ value_of q.0)
        × (contracts_at
              (answer "Create contract failed" as_contract (Handlers.created (at_rest s) q) n).1
            ≡ q.1)
  created-Refines s (ok c, t) n = (refl, refl)
  created-Refines s (err e, t) n = (refl, refl)

  -- No row that was met is an error of the client, on both sides.
  changed-Refines :
      (message nothing : String) (s : Site) (q : Result DbError ℕ × Table Contract) (n : ℕ)
      → let (r, s') = answer message as_effected_num (Handlers.changed (at_rest s) q) n in
        (value_of (continue r (λ k. lift (effected nothing k)) s').0
          ≡ value_of (continue (map_err undecodable q.0) (λ k. lift (effected nothing k)) q.1).0)
        × (contracts_at (continue r (λ k. lift (effected nothing k)) s').1
            ≡ (continue (map_err undecodable q.0) (λ k. lift (effected nothing k)) q.1).1)
  changed-Refines message nothing s (ok zero, t) n = (refl, refl)
  changed-Refines message nothing s (ok (suc k), t) n = (refl, refl)
  changed-Refines message nothing s (err e, t) n = (refl, refl)

  create-Refines :
      (new : NewContract)
      → Refines contracts_at
          (Api.create_contract (over_http lib signer env) new)
          (Api.create_contract tables new)
  unfolding Api.create_contract
  create-Refines new = record {
    same_value = λ s.
        rw (create-served new s) ((created-Refines s _ _).0 ∙ sym (value_of-map_err undecodable _));
    same_state = λ s. rw (create-served new s) (created-Refines s _ _).1;
  }

  update-Refines :
      (u : UpdateContract)
      → Refines contracts_at
          (Api.update_contract (over_http lib signer env) u)
          (Api.update_contract tables u)
  unfolding Api.update_contract
  update-Refines u = record {
    same_value = λ s.
        rw (put-served u s)
          (changed-Refines "Updating contract failed" "No contract updated" s
            (Contracts.update_contract none u s.server.contracts) (twice s)).0;
    same_state = λ s.
        rw (put-served u s)
          (changed-Refines "Updating contract failed" "No contract updated" s
            (Contracts.update_contract none u s.server.contracts) (twice s)).1;
  }

  delete-Refines :
      (d : DeleteContract)
      → Refines contracts_at
          (Api.delete_contract (over_http lib signer env) d)
          (Api.delete_contract tables d)
  unfolding Api.delete_contract
  delete-Refines d = record {
    same_value = λ s.
        rw (remove-served d s)
          (changed-Refines "Deleting contract failed" "No contract deleted" s
            (Contracts.delete_contract none d s.server.contracts) (twice s)).0;
    same_state = λ s.
        rw (remove-served d s)
          (changed-Refines "Deleting contract failed" "No contract deleted" s
            (Contracts.delete_contract none d s.server.contracts) (twice s)).1;
  }

  get-served :
      (p : ContractRequestParams) (s : Site)
      → p.key ≡ signer.public_key
      → get_contracts lib signer env p s
        ≡ answer "get contracts failed" as_contract_list
            (Handlers.get_contracts (env (suc s.sent)) p (at_rest s))
            (twice s)
  unfolding get_contracts send call_get svc_call dispatch
  get-served p s own =
      let n = (env s.sent).random_nonce in
      let req : Request = record {
        method = get;
        route = contracts;
        authorization = some (visible n);
        query = signed_params p (signer.sign n);
        payload = none;
      } in
      let q = query_params-signed (signer.sign n) p.key p.uuid p.state in
      let verified : verify_query_params lib (signer.sign n) p.key n ≡ true =
        rw own (honest.verifies n) in
      let checked =
        call-eq-call_get lib (env (suc s.sent)) n req (noncing lib signer env honest s) refl tt
          refl in
      rw
        (
          fetch_nonce-issued lib signer env honest s,
          checked,
          q.0,
          verified,
          issued n (evict s.server.nonces),
        )
        (ap
          (λ o.
            answer "get contracts failed" as_contract_list
              (extract o (Handlers.get_contracts (env (suc s.sent))) (at_rest s)) (twice s))
          q.1)

  get_contracts-Refines :
      (p : ContractRequestParams)
      → p.key ≡ signer.public_key
      → Refines contracts_at (get_contracts lib signer env p) (tables.get_contracts p)
  unfolding Handlers.get_contracts Contracts.get_contracts load
  get_contracts-Refines p own = record {
    same_value = λ s. rw (get-served p s own, honest.available, honest.answers) refl;
    same_state = λ s. rw (get-served p s own, honest.available, honest.answers) refl;
  }

-- When the client's signatures verify under its key, and the pool has a connection that answers in
-- every request, what the client does over HTTP refines the server's queries on its table of
-- contracts: the same value or an error on both sides, and the same table after it. The listings
-- are those under the client's key.
pub over_http-RefinesApi :
    (lib : Crypto) (signer : Signer) (env : ℕ → Env)
    → IsHonest lib signer env
    → RefinesApi contracts_at signer.public_key (over_http lib signer env) tables
over_http-RefinesApi lib signer env honest = record {
  listed = get_contracts-Refines lib signer env honest;
  created = create-Refines lib signer env honest;
  updated = update-Refines lib signer env honest;
  deleted = delete-Refines lib signer env honest;
}
