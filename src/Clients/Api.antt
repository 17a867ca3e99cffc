-- ===== src/Clients/Api.antt =====
-- The methods of `StorageApiClient` in clients/src/lib.rs, over the decoded answers of the four
-- requests on contracts: what a signed request and the decoding of its answer give is the record
-- `StorageApi`, on a state `S` of the server.
use Prim.Native.String.{◌++◌ as append}
use dlc_stack.Base.{ℕ, zero, suc, String, Option, none, some, List, Result, ok, err, map_err, first}
use dlc_stack.Storage.Models.{
  NewContract, Contract, UpdateContract, DeleteContract, ContractRequestParams,
}
use dlc_stack.Storage.Sql.{DbError}
use dlc_stack.Storage.Contracts

pub record ApiError : Type 0 where
  pub message : String
  pub status : ℕ

-- `Display for ApiError`, with the decimal form of a status.
abbrev pub fmt : (ℕ → String) → ApiError → String
fmt show e = append "ApiError: " (append (show e.status) (append " - " e.message))

-- A call that may fail, and the server's state after it.
abbrev pub Stateful : Type 0 → Type 0 → Type 0 → Type 0
Stateful S E A = S → Result E A × S

module _ {S E A B : Type 0} where
  abbrev pub continue : Result E A → (A → Stateful S E B) → Stateful S E B
  continue (ok a) f s = f a s
  continue (err e) f s = (err e, s)

  infixl 5 ◌>>=◌
  abbrev pub ◌>>=◌ : Stateful S E A → (A → Stateful S E B) → Stateful S E B
  ◌>>=◌ m f s = let (r, s') = m s in continue r f s'

abbrev pub lift : {S E A : Type 0} → Result E A → Stateful S E A
lift r s = (r, s)

abbrev pub failing_as : {S E F A : Type 0} → (E → F) → Stateful S E A → Stateful S F A
failing_as f m s = let (r, s') = m s in (map_err f r, s')

pub record StorageApi (S : Type 0) : Type 0 where
  pub get_contracts : ContractRequestParams → Stateful S ApiError (List Contract)
  pub post_contract : NewContract → Stateful S ApiError Contract
  -- the number of rows that the answer names
  pub put_contract : UpdateContract → Stateful S ApiError ℕ
  pub delete_contract : DeleteContract → Stateful S ApiError ℕ

-- `match ... .effected_num`.
abbrev pub effected : String → ℕ → Result ApiError (Unit {0})
effected nothing zero = err (record { message = nothing; status = 200 })
effected nothing (suc n) = ok tt

module _ {S : Type 0} (api : StorageApi S) where
  unfoldable pub get_contract : String → String → Stateful S ApiError (Option Contract)
  get_contract key uuid = do
    contract ← api.get_contracts (record { key = key; uuid = some uuid; state = none })
    lift (ok (first contract))

  unfoldable pub create_contract : NewContract → Stateful S ApiError Contract
  create_contract contract = api.post_contract contract

  unfoldable pub update_contract : UpdateContract → Stateful S ApiError (Unit {0})
  update_contract contract = do
    n ← api.put_contract contract
    lift (effected "No contract updated" n)

  unfoldable pub delete_contract : DeleteContract → Stateful S ApiError (Unit {0})
  delete_contract contract = do
    n ← api.delete_contract contract
    lift (effected "No contract deleted" n)

-- The server's own queries, on a database that answers; an answer that is no row fails to decode.
abbrev pub undecodable : DbError → ApiError
undecodable e = record { message = "response from API not a contract object"; status = 400 }

abbrev pub tables : StorageApi Contracts.Contracts
tables = record {
  get_contracts = λ p t. (map_err undecodable (Contracts.get_contracts none p t), t);
  post_contract = λ c. failing_as undecodable (λ t. Contracts.create_contract none c t);
  put_contract = λ u. failing_as undecodable (λ t. Contracts.update_contract none u t);
  delete_contract = λ d. failing_as undecodable (λ t. Contracts.delete_contract none d t);
}
