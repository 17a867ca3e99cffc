-- ===== src/Clients/Provider.antt =====
-- clients/src/async_storage_provider.rs: the storage of the manager, over the storage API.
pub mod Rows
pub mod Stored
pub mod Remote
pub mod Others
use dlc_stack.Base.{
  ℕ, String, Bool, true, false, if◌then◌else◌, ◌>>=◌ as and_then, Option, none, some, List, [], ◌∷◌,
  Result, ok, err, map_err,
}
use dlc_stack.Manager.Types.{
  ContractId, Error, storage_error, io_error, OfferedContract, SignedContract, PreClosedContract,
  Contract, offered, accepted, signed, confirmed, pre_closed,
}
use dlc_stack.Storage.Models
use dlc_stack.Clients.Ids.{get_contract_id_string}
use dlc_stack.Clients.Codec.{
  Bytes, Serializers, serialize_contract, deserialize_contract, get_contract_state_str,
}
use dlc_stack.Clients.Api.{ApiError, Stateful, ◌>>=◌, lift, failing_as, StorageApi}
use dlc_stack.Clients.Api

-- What the provider takes from other crates: base64, the forms of the states, the two ids of a
-- contract, and the texts of errors.
pub record Lib : Type 0 where
  pub encode : Bytes → String
  pub decode : String → Result String Bytes
  pub serializers : Serializers
  pub get_id : Contract → ContractId
  pub get_temporary_id : Contract → ContractId
  pub show_error : Error → String
  pub show_status : ℕ → String

-- `get_contracts_by_state` and the other lists keep one constructor each.
abbrev pub as_offered : Contract → Option OfferedContract
as_offered (offered c) = some c
as_offered (accepted c) = none
as_offered _ = none

abbrev pub as_signed : Contract → Option SignedContract
as_signed (signed c) = some c
as_signed (accepted c) = none
as_signed _ = none

abbrev pub as_confirmed : Contract → Option SignedContract
as_confirmed (confirmed c) = some c
as_confirmed (accepted c) = none
as_confirmed _ = none

abbrev pub as_preclosed : Contract → Option PreClosedContract
as_preclosed (pre_closed c) = some c
as_preclosed (accepted c) = none
as_preclosed _ = none

abbrev pub push_some : {A : Type 0} → Option A → List A → List A
push_some none rest = rest
push_some (some a) rest = a ∷ rest

abbrev pub only : {A : Type 0} → (Contract → Option A) → List Contract → List A
only f [] = []
only f (c ∷ cs) = push_some (f c) (only f cs)

-- Whether an update of this contract replaces the one that was stored under its temporary id.
abbrev pub replaces_temporary : Contract → Bool
replaces_temporary (accepted c) = true
replaces_temporary (signed c) = true
replaces_temporary (offered c) = false
replaces_temporary _ = false

module _ (dep : Lib) where
  unfoldable pub decode_content : String → Result Error Contract
  decode_content content = and_then (map_err storage_error (dep.decode content)) λ bytes.
      map_err (λ e. storage_error (dep.show_error e)) (deserialize_contract dep.serializers bytes)

  unfoldable pub decode_all : List Models.Contract → Result Error (List Contract)
  decode_all [] = ok []
  decode_all (c ∷ cs) =
      let rest = decode_all cs in
      and_then (decode_content c.content)
        λ contract. and_then rest λ contracts. ok (contract ∷ contracts)

  abbrev pub serialized : Contract → Result Error Bytes
  serialized c = map_err io_error (serialize_contract dep.serializers c)

  abbrev pub to_storage_error : ApiError → Error
  to_storage_error e = storage_error (Api.fmt dep.show_status e)

  module _ {S : Type 0} (api : StorageApi S) (public_key : String) where
    unfoldable pub get_contracts_by_state : String → Stateful S Error (List Contract)
    get_contracts_by_state state = do
      contracts_res ←
          failing_as to_storage_error
            (api.get_contracts (record { key = public_key; uuid = none; state = some state }))
      lift (decode_all contracts_res)

    abbrev pub decode_found : Option Models.Contract → Result Error (Option Contract)
    decode_found none = ok none
    decode_found (some res) = and_then (decode_content res.content) λ contract. ok (some contract)

    unfoldable pub get_contract : ContractId → Stateful S Error (Option Contract)
    get_contract id = do
      contract_res ←
          failing_as to_storage_error (Api.get_contract api public_key (get_contract_id_string id))
      lift (decode_found contract_res)

    unfoldable pub get_contracts : Stateful S Error (List Contract)
    get_contracts = do
      contracts_res ←
          failing_as to_storage_error
            (api.get_contracts (record { key = public_key; uuid = none; state = none }))
      lift (decode_all contracts_res)

    abbrev pub new_contract : ContractId → String → Bytes → Models.NewContract
    new_contract id state data_bytes = record {
      uuid = get_contract_id_string id;
      state = state;
      content = dep.encode data_bytes;
      key = public_key;
    }

    abbrev pub contract_update : Contract → Bytes → Models.UpdateContract
    contract_update contract data_bytes = record {
      uuid = get_contract_id_string (dep.get_id contract);
      state = some (get_contract_state_str contract);
      content = some (dep.encode data_bytes);
      key = public_key;
    }

    unfoldable pub create_contract : OfferedContract → Stateful S Error (Unit {0})
    create_contract contract = do
      data_bytes ← lift (serialized (offered contract))
      created ←
          failing_as to_storage_error
            (Api.create_contract api (new_contract contract.id "offered" data_bytes))
      lift (ok tt)

    unfoldable pub delete_contract : ContractId → Stateful S Error (Unit {0})
    delete_contract id =
        failing_as to_storage_error
          (Api.delete_contract api (record { key = public_key; uuid = get_contract_id_string id }))

    -- `match client.update_contract(..).await`, which creates what could not be updated.
    abbrev pub or_create :
        Contract → Bytes → Result ApiError (Unit {0}) → Stateful S Error (Unit {0})
    or_create contract data_bytes (ok u) = lift (ok tt)
    or_create contract data_bytes (err e) = do
      created ← failing_as to_storage_error (
          Api.create_contract api
            (new_contract (dep.get_id contract) (get_contract_state_str contract) data_bytes))
      lift (ok tt)

    unfoldable pub update_or_create : Contract → Bytes → Stateful S Error (Unit {0})
    update_or_create contract data_bytes s =
        let (r, s') = Api.update_contract api (contract_update contract data_bytes) s in
        or_create contract data_bytes r s'

    unfoldable pub update_only : Contract → Bytes → Stateful S Error (Unit {0})
    update_only contract data_bytes =
        failing_as to_storage_error (Api.update_contract api (contract_update contract data_bytes))

    -- The result of the deletion is thrown away.
    unfoldable pub update_contract : Contract → Stateful S Error (Unit {0})
    update_contract contract s =
        if replaces_temporary contract
        then (let (ignored, s') = delete_contract (dep.get_temporary_id contract) s in
            (lift (serialized contract) >>= update_or_create contract) s')
        else (lift (serialized contract) >>= update_only contract) s

    unfoldable pub get_contract_offers : Stateful S Error (List OfferedContract)
    get_contract_offers = do
      contracts_per_state ← get_contracts_by_state "offered"
      lift (ok (only as_offered contracts_per_state))

    unfoldable pub get_signed_contracts : Stateful S Error (List SignedContract)
    get_signed_contracts = do
      contracts_per_state ← get_contracts_by_state "signed"
      lift (ok (only as_signed contracts_per_state))

    unfoldable pub get_confirmed_contracts : Stateful S Error (List SignedContract)
    get_confirmed_contracts = do
      contracts_per_state ← get_contracts_by_state "confirmed"
      lift (ok (only as_confirmed contracts_per_state))

    unfoldable pub get_preclosed_contracts : Stateful S Error (List PreClosedContract)
    get_preclosed_contracts = do
      contracts_per_state ← get_contracts_by_state "pre_closed"
      lift (ok (only as_preclosed contracts_per_state))
