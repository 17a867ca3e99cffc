-- ===== src/Clients/Provider/Others.antt =====
-- Storing a contract leaves the other contracts as they were.
use dlc_stack.Base.{
  String, ◌≡◌, ◌≢◌, refl, sym, ap, ◌∙◌, arith, true, false, List, [], ◌∷◌, ◌++◌, Result, ok, err,
  map_err, keep, find, first, first-keep, keep-append, exists_in, eq_iff, eq-false_of_ne, inl, inr,
  Bool-cases,
}
use dlc_stack.Manager.Types.{ContractId, Contract, Error}
use dlc_stack.Storage.Models
use dlc_stack.Storage.Sql.{Table, delete, insert_into, update}
use dlc_stack.Storage.Sql.Reads.{keep-keep-not, keep-set_where}
use dlc_stack.Storage.Contracts
use dlc_stack.Clients.Ids.{get_contract_id_string}
use dlc_stack.Clients.Codec.{Bytes, get_contract_state_str}
use dlc_stack.Clients.Api.{tables}
use dlc_stack.Clients.Api
use dlc_stack.Clients.Provider.{
  Lib, to_storage_error, serialized, or_create, get_contract, update_or_create, update_only,
  update_contract, replaces_temporary, contract_update, new_contract, delete_contract,
}
use dlc_stack.Clients.Provider.Rows.{named, get_contract-find}

-- The rows under a key and id.
abbrev Same : String → String → Table Models.Contract → Table Models.Contract → Type 0
Same key uuid t t' = keep (named key uuid) t'.rows ≡ keep (named key uuid) t.rows

apart :
    (key uuid other : String) (r : Models.Contract)
    → uuid ≢ other
    → named key uuid r ≡ true
    → named key other r ≡ false
apart key uuid other r differ e = ground (arith, e, differ, eq_iff r.uuid uuid, eq_iff r.uuid other)

module _ (key uuid other : String) (differ : uuid ≢ other) where
  delete-Same :
      (t : Table Models.Contract)
      → Same key other t (Api.delete_contract tables (record { key = key; uuid = uuid }) t).1
  unfolding Api.delete_contract Contracts.delete_contract delete
  delete-Same t =
      keep-keep-not (named key other) (named key uuid) t.rows
        (λ r e. apart key uuid other r differ e)

  update-Same :
      (u : Models.UpdateContract) (t : Table Models.Contract)
      → u.key ≡ key
      → u.uuid ≡ uuid
      → Same key other t (Api.update_contract tables u t).1
  unfolding Api.update_contract Contracts.update_contract update
  update-Same u t same_key same_uuid =
      keep-set_where (named key other) (named u.key u.uuid) (Contracts.changeset u) t.rows (λ r e. (
        apart key uuid other r differ (rw (same_key, same_uuid) at e),
        rw (same_uuid, eq-false_of_ne uuid other differ) refl,
      ))

  create-Same :
      (new : Models.NewContract) (t : Table Models.Contract)
      → new.uuid ≡ uuid
      → Same key other t (Api.create_contract tables new t).1
  unfolding Api.create_contract Contracts.create_contract insert_into
  create-Same new t same_uuid = elim (Bool-cases (exists_in (named new.key new.uuid) t.rows)) [
    | inl b ↦ rw b refl
    | inr b ↦
        rw
          (
            b,
            keep-append (named key other) t.rows (Contracts.row_of new t.next_id ∷ []),
            same_uuid,
            eq-false_of_ne uuid other differ,
          )
          (append_nothing (keep (named key other) t.rows))
  ]
    where
      append_nothing : (xs : List Models.Contract) → xs ++ [] ≡ xs
      append_nothing [] = refl
      append_nothing (x ∷ xs) = ap (λ rest. x ∷ rest) (append_nothing xs)

continue_state :
    {S E A B : Type 0} (r : Result E A) (b : B) (s : S)
    → (Api.continue r (λ _. Api.lift (ok b)) s).1 ≡ s
continue_state (ok a) b s = refl
continue_state (err e) b s = refl

module _ (dep : Lib) (key : String) (c : Contract) (other : String)
    (differ : get_contract_id_string (dep.get_id c) ≢ other) where
  or_create-Same :
      (bytes : Bytes) (t t' : Table Models.Contract) (r : Result Api.ApiError (Unit {0}))
      → Same key other t t'
      → Same key other t (or_create dep tables key c bytes r t').1
  or_create-Same bytes t t' (ok u) same = same
  or_create-Same bytes t t' (err e) same =
      let new = new_contract dep tables key (dep.get_id c) (get_contract_state_str c) bytes in
      rw
        (continue_state (map_err (to_storage_error dep) (Api.create_contract tables new t').0) tt
          (Api.create_contract tables new t').1)
        (create-Same key (get_contract_id_string (dep.get_id c)) other differ new t' refl ∙ same)

  update_or_create-Same :
      (bytes : Bytes) (t : Table Models.Contract)
      → Same key other t (update_or_create dep tables key c bytes t).1
  unfolding update_or_create
  update_or_create-Same bytes t =
      let u = contract_update dep tables key c bytes in
      or_create-Same bytes t (Api.update_contract tables u t).1 (Api.update_contract tables u t).0
        (update-Same key (get_contract_id_string (dep.get_id c)) other differ u t refl refl)

  update_only-Same :
      (bytes : Bytes) (t : Table Models.Contract)
      → Same key other t (update_only dep tables key c bytes t).1
  unfolding update_only
  update_only-Same bytes t =
      update-Same key (get_contract_id_string (dep.get_id c)) other differ
        (contract_update dep tables key c bytes) t refl refl

  bound-Same :
      (r : Result Error Bytes)
      (f : Bytes → Table Models.Contract → Result Error (Unit {0}) × Table Models.Contract)
      (t t' : Table Models.Contract)
      → Same key other t t'
      → ((bytes : Bytes) → Same key other t' (f bytes t').1)
      → Same key other t (Api.continue r f t').1
  bound-Same (ok bytes) f t t' same k = k bytes ∙ same
  bound-Same (err e) f t t' same k = same

  update_contract-Same :
      (t : Table Models.Contract)
      → get_contract_id_string (dep.get_temporary_id c) ≢ other
      → Same key other t (update_contract dep tables key c t).1
  unfolding update_contract delete_contract
  update_contract-Same t apart_too = elim (Bool-cases (replaces_temporary c)) [
    | inl b ↦ rw b (
        bound-Same (serialized dep c) (update_or_create dep tables key c) t _
          (delete-Same key (get_contract_id_string (dep.get_temporary_id c)) other apart_too t)
          (λ bytes. update_or_create-Same bytes _))
    | inr b ↦ rw b (
        bound-Same (serialized dep c) (update_only dep tables key c) t t refl
          (λ bytes. update_only-Same bytes t))
  ]

-- When the server runs its queries, storing a contract, whether it succeeds or not, leaves what is
-- read under any other id as it was, but for the temporary id of the contract.
pub update_contract-keeps_others :
    (dep : Lib) (key : String) (c : Contract) (id : ContractId) (t : Table Models.Contract)
    → get_contract_id_string (dep.get_id c) ≢ get_contract_id_string id
    → get_contract_id_string (dep.get_temporary_id c) ≢ get_contract_id_string id
    → let t' = (update_contract dep tables key c t).1 in
      (get_contract dep tables key id t').0 ≡ (get_contract dep tables key id t).0
unfolding get_contract
update_contract-keeps_others dep key c id t differ apart_too =
    let uuid = get_contract_id_string id in
    let t' = (update_contract dep tables key c t).1 in
    let same_found : find (named key uuid) t'.rows ≡ find (named key uuid) t.rows =
      sym (first-keep (named key uuid) t'.rows)
      ∙ ap first (update_contract-Same dep key c uuid differ t apart_too)
      ∙ first-keep (named key uuid) t.rows in
    rw (get_contract-find key uuid t', get_contract-find key uuid t, same_found) refl
