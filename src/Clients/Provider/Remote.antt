-- ===== src/Clients/Provider/Remote.antt =====
-- The provider over an API that refines the server's queries, and a contract that it has stored over
-- HTTP.
use dlc_stack.Base.{
  ℕ, String, ◌≡◌, refl, ap, ◌∙◌, arith, true, ◌||◌, none, some, Result, ok, err, exists_in, inl,
  inr, Bool-cases,
}
use dlc_stack.Manager.Types.{ContractId, Contract}
use dlc_stack.Api.Http.{Env}
use dlc_stack.Api.Auth.{Crypto}
use dlc_stack.Clients.Api as Calls
use dlc_stack.Clients.Api.{StorageApi, ApiError, lift, failing_as, tables, Stateful, ◌>>=◌}
use dlc_stack.Clients.Ids.{get_contract_id_string}
use dlc_stack.Clients.Codec.{Bytes, serialize_contract}
use dlc_stack.Clients.Refines.{
  value_of, Refines, RefinesApi, Refines-bind, Refines-then, Refines-lift, Refines-failing_as,
}
use dlc_stack.Clients.Http.{Signer, Site, over_http}
use dlc_stack.Clients.Http.Served.{IsHonest}
use dlc_stack.Clients.Http.Refined.{contracts_at, over_http-RefinesApi}
use dlc_stack.Clients.Provider.{
  Lib, get_contract, update_contract, update_or_create, update_only, or_create, delete_contract,
  serialized, replaces_temporary, decode_found,
}
use dlc_stack.Clients.Provider.Rows.{named}
use dlc_stack.Clients.Provider.Stored.{IsLawful, update_contract-get_contract}

module _ {S T : Type 0} (view : S → T) (dep : Lib) (key : String) (api : StorageApi S)
    (spec : StorageApi T) (refines : RefinesApi view key api spec) where
  got :
      (id : ContractId) → Refines view (get_contract dep api key id) (get_contract dep spec key id)
  unfolding get_contract Calls.get_contract
  got id =
      Refines-bind view _ _
        (λ r. Refines-lift view (decode_found dep api key r) (decode_found dep spec key r) refl) _ _
        (Refines-failing_as view _ _ _ _ (
          Refines-bind view _ _ (λ cs. Refines-lift view _ _ refl) _ _
            (refines.listed
              (record { key = key; uuid = some (get_contract_id_string id); state = none }) refl)))

  made :
      (c : Contract) (bytes : Bytes) (r r' : Result ApiError (Unit {0}))
      → value_of r ≡ value_of r'
      → Refines view (or_create dep api key c bytes r) (or_create dep spec key c bytes r')
  made c bytes (ok u) (ok v) e = Refines-lift view _ _ refl
  made c bytes (ok u) (err y) e = absurd (ground (arith, e))
  made c bytes (err x) (ok v) e = absurd (ground (arith, e))
  made c bytes (err x) (err y) e =
      Refines-bind view _ _ (λ a. Refines-lift view _ _ refl) _ _
        (Refines-failing_as view _ _ _ _ (refines.created _))

  deleted :
      (id : ContractId)
      → Refines view (delete_contract dep api key id) (delete_contract dep spec key id)
  unfolding delete_contract
  deleted id = Refines-failing_as view _ _ _ _ (refines.deleted _)

  updated_or_created :
      (c : Contract) (bytes : Bytes)
      → Refines view (update_or_create dep api key c bytes) (update_or_create dep spec key c bytes)
  unfolding update_or_create
  updated_or_created c bytes = Refines-then view _ _ _ _ (refines.updated _) (made c bytes)

  updated_only :
      (c : Contract) (bytes : Bytes)
      → Refines view (update_only dep api key c bytes) (update_only dep spec key c bytes)
  unfolding update_only
  updated_only c bytes = Refines-failing_as view _ _ _ _ (refines.updated _)

  replaced :
      (c : Contract)
      → Refines view
          (λ s.
            (lift (serialized dep c) >>= update_or_create dep api key c)
              (delete_contract dep api key (dep.get_temporary_id c) s).1)
          (λ s.
            (lift (serialized dep c) >>= update_or_create dep spec key c)
              (delete_contract dep spec key (dep.get_temporary_id c) s).1)
  replaced c =
      Refines-then view _ _ (λ r. lift (serialized dep c) >>= update_or_create dep api key c)
        (λ r. lift (serialized dep c) >>= update_or_create dep spec key c)
        (deleted (dep.get_temporary_id c))
        (λ r r' e. Refines-bind view _ _ (updated_or_created c) _ _ (Refines-lift view _ _ refl))

  only_updated :
      (c : Contract)
      → Refines view
          (lift (serialized dep c) >>= update_only dep api key c)
          (lift (serialized dep c) >>= update_only dep spec key c)
  only_updated c = Refines-bind view _ _ (updated_only c) _ _ (Refines-lift view _ _ refl)

  -- Both branches, by whether the temporary row is deleted first.
  updated :
      (c : Contract) → Refines view (update_contract dep api key c) (update_contract dep spec key c)
  unfolding update_contract
  updated c = elim (Bool-cases (replaces_temporary c)) [
    | inl b ↦ record {
      same_value = λ s. rw b ((replaced c).same_value s);
      same_state = λ s. rw b ((replaced c).same_state s);
    }
    | inr b ↦ record {
      same_value = λ s. rw b ((only_updated c).same_value s);
      same_state = λ s. rw b ((only_updated c).same_state s);
    }
  ]

-- With an honest server and client, and base64 and the forms of the states read back as they were
-- written: a contract that can be serialized, and that is accepted or signed or has a row under its
-- id, is stored over HTTP, and the next request for its id over HTTP gives it back as it was stored.
pub over_http-stored :
    (lib : Crypto) (signer : Signer) (env : ℕ → Env) (dep : Lib) (c : Contract) (bytes : Bytes)
    (site : Site)
    → IsHonest lib signer env
    → IsLawful dep
    → serialize_contract dep.serializers c ≡ ok bytes
    → (replaces_temporary c
        || exists_in
            (named signer.public_key (get_contract_id_string (dep.get_id c)))
            (contracts_at site).rows)
      ≡ true
    → let api = over_http lib signer env in
      let (r, site') = update_contract dep api signer.public_key c site in
      (value_of r ≡ some tt)
      × (value_of (get_contract dep api signer.public_key (dep.get_id c) site').0 ≡ some (some c))
over_http-stored lib signer env dep c bytes site honest law written known =
    let key = signer.public_key in
    let api = over_http lib signer env in
    let refines = over_http-RefinesApi lib signer env honest in
    let (stored, found) =
      update_contract-get_contract dep key c bytes (contracts_at site) law written known in
    let u = updated contracts_at dep key api tables refines c in
    let g = got contracts_at dep key api tables refines (dep.get_id c) in
    (
      u.same_value site ∙ ap value_of stored,
      g.same_value _
          ∙ ap (λ t. value_of (get_contract dep tables key (dep.get_id c) t).0) (u.same_state site)
          ∙ ap (λ r. value_of r.0) found,
    )
