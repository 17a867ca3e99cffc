-- ===== src/Api/Contracts.antt =====
-- The handlers of storage/api/src/contracts.rs.
use dlc_stack.Base.{ℕ, zero, suc, String, Result, ok, err}
use dlc_stack.Storage.Sql.{DbError, Table}
use dlc_stack.Storage.Models.{
  NewContract, Contract, UpdateContract, DeleteContract, ContractRequestParams,
}
use dlc_stack.Storage.Contracts as Queries
use dlc_stack.Api.Http.{
  Server, Outcome, Env, panicked, reply, with_conn, contract_list, one_contract, effected_num,
  db_error, not_found_text, status_ok, status_bad_request, status_not_found,
}

unfoldable pub get_contracts : Env → ContractRequestParams → Server → Outcome
get_contracts env contract_params s = with_conn env s λ conn.
    elim (Queries.get_contracts conn contract_params s.contracts) [
      | ok contracts ↦ reply status_ok (contract_list contracts) s
      | err e ↦ reply status_bad_request (db_error e) s
    ]

abbrev pub created : Server → Result DbError Contract × Table Contract → Outcome
created s (ok contract, t) = reply status_ok (one_contract contract) (record s { contracts = t })
created s (err e, t) = reply status_bad_request (db_error e) (record s { contracts = t })

unfoldable pub create_contract : Env → NewContract → Server → Outcome
create_contract env contract_params s =
    with_conn env s λ conn. created s (Queries.create_contract conn contract_params s.contracts)

-- The answer to an UPDATE or a DELETE: 404 if it met no row.
abbrev pub changed : Server → Result DbError ℕ × Table Contract → Outcome
changed s (ok zero, t) = reply status_not_found not_found_text (record s { contracts = t })
changed s (ok (suc n), t) = reply status_ok (effected_num (suc n)) (record s { contracts = t })
changed s (err e, t) = reply status_bad_request (db_error e) (record s { contracts = t })

unfoldable pub update_contract : Env → UpdateContract → Server → Outcome
update_contract env contract_params s =
    with_conn env s λ conn. changed s (Queries.update_contract conn contract_params s.contracts)

unfoldable pub delete_contract : Env → DeleteContract → Server → Outcome
delete_contract env contract_params s =
    with_conn env s λ conn. changed s (Queries.delete_contract conn contract_params s.contracts)

-- `.expect("couldn't delete contracts from db")`
abbrev pub all_deleted : Server → Result DbError ℕ × Table Contract → Outcome
all_deleted s (ok n, t) = reply status_ok (effected_num n) (record s { contracts = t })
all_deleted s (err e, t) = panicked (record s { contracts = t })

unfoldable pub delete_contracts : Env → String → Server → Outcome
delete_contracts env ckey s =
    with_conn env s λ conn. all_deleted s (Queries.delete_all_contracts conn ckey s.contracts)
