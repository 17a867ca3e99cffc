-- ===== src/Storage/Contracts.antt =====
-- The queries on the `contracts` table in storage/common/src/lib.rs, which storage/reader and
-- storage/writer pass on.
use dlc_stack.Base.{ℕ, String, Bool, ◌&&◌, Option, none, some, List, ◌==◌, Result}
use dlc_stack.Storage.Sql.{DbError, Conn, Table, load, insert_into, delete, update, is_row}
use dlc_stack.Storage.Models.{
  NewContract, Contract, UpdateContract, DeleteContract, ContractRequestParams,
}

abbrev pub Contracts : Type 0
Contracts = Table Contract

-- The boxed query of `get_contracts`, one filter after the other.
abbrev pub query : ContractRequestParams → Contract → Bool
query p c =
    let by_key : Bool = c.key == p.key in
    let by_state : Bool = elim p.state [ none ↦ by_key | some s ↦ by_key && (c.state == s) ] in
    elim p.uuid [ none ↦ by_state | some u ↦ by_state && (c.uuid == u) ]

unfoldable pub get_contracts :
    Conn → ContractRequestParams → Contracts → Result DbError (List Contract)
unfolding load
get_contracts conn contract_params t = load conn (query contract_params) t

abbrev pub is_contract : String → String → Contract → Bool
is_contract k u = is_row (λ c. c.key) (λ c. c.uuid) k u

abbrev pub row_of : NewContract → ℕ → Contract
row_of new id = record {
  id = id;
  uuid = new.uuid;
  state = new.state;
  content = new.content;
  key = new.key;
}

unfoldable pub create_contract :
    Conn → NewContract → Contracts → Result DbError Contract × Contracts
unfolding insert_into
create_contract conn contract t =
    insert_into conn (is_contract contract.key contract.uuid) (row_of contract) t

unfoldable pub delete_contract : Conn → DeleteContract → Contracts → Result DbError ℕ × Contracts
unfolding delete
delete_contract conn contract t = delete conn (is_contract contract.key contract.uuid) t

unfoldable pub delete_all_contracts : Conn → String → Contracts → Result DbError ℕ × Contracts
unfolding delete
delete_all_contracts conn ckey t = delete conn (λ c. c.key == ckey) t

-- `AsChangeset`: a field that is `None` is left as it is.
abbrev pub or_keep : Option String → String → String
or_keep none old = old
or_keep (some new) old = new

abbrev pub changeset : UpdateContract → Contract → Contract
changeset u c = record c {
  uuid = u.uuid;
  state = or_keep u.state c.state;
  content = or_keep u.content c.content;
  key = u.key;
}

unfoldable pub update_contract : Conn → UpdateContract → Contracts → Result DbError ℕ × Contracts
unfolding update
update_contract conn contract t =
    update conn (is_contract contract.key contract.uuid) (changeset contract) t
