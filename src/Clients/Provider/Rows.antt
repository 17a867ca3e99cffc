-- ===== src/Clients/Provider/Rows.antt =====
-- What the client's methods do to the table, on the server's own queries.
use dlc_stack.Base.{
  String, ◌≡◌, refl, ap, ◌∙◌, arith, Bool, true, false, none, some, ok, err, exists_in, find,
  first-keep,
}
use dlc_stack.Storage.Models.{NewContract, Contract, UpdateContract}
use dlc_stack.Storage.Sql.{Table, load, insert_into, update, set_where, put_row}
use dlc_stack.Storage.Sql.Reads.{count_of_exists, count_of_absent, set_where-absent, find_ext}
use dlc_stack.Storage.Contracts
use dlc_stack.Clients.Api.{tables, get_contract, create_contract, update_contract}

abbrev pub named : String → String → Contract → Bool
named key uuid = Contracts.is_contract key uuid

query-is_contract :
    (key uuid : String) (c : Contract)
    → Contracts.query (record { key = key; uuid = some uuid; state = none }) c ≡ named key uuid c
query-is_contract key uuid c = ground arith

pub get_contract-find :
    (key uuid : String) (t : Table Contract)
    → get_contract tables key uuid t ≡ (ok (find (named key uuid) t.rows), t)
unfolding get_contract Contracts.get_contracts load
get_contract-find key uuid t =
    let same =
      first-keep (Contracts.query (record { key = key; uuid = some uuid; state = none })) t.rows
      ∙ find_ext (named key uuid) _ t.rows (query-is_contract key uuid) in
    ap (λ o. (ok o, t)) same

pub update_contract-present :
    (u : UpdateContract) (t : Table Contract)
    → exists_in (named u.key u.uuid) t.rows ≡ true
    → update_contract tables u t
      ≡ (ok tt, record t { rows = set_where (named u.key u.uuid) (Contracts.changeset u) t.rows })
unfolding update_contract Contracts.update_contract update
update_contract-present u t e =
    let (n, counted) = count_of_exists (named u.key u.uuid) t.rows e in rw counted refl

pub update_contract-absent :
    (u : UpdateContract) (t : Table Contract)
    → exists_in (named u.key u.uuid) t.rows ≡ false
    → update_contract tables u t
      ≡ (err (record { message = "No contract updated"; status = 200 }), t)
unfolding update_contract Contracts.update_contract update
update_contract-absent u t e =
    rw
      (
        count_of_absent (named u.key u.uuid) t.rows e,
        set_where-absent (named u.key u.uuid) (Contracts.changeset u) t.rows e,
      )
      refl

pub create_contract-absent :
    (new : NewContract) (t : Table Contract)
    → exists_in (named new.key new.uuid) t.rows ≡ false
    → create_contract tables new t
      ≡ (ok (Contracts.row_of new t.next_id), put_row t (Contracts.row_of new t.next_id))
unfolding create_contract Contracts.create_contract insert_into
create_contract-absent new t e = rw e refl
