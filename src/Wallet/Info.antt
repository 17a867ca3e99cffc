-- ===== src/Wallet/Info.antt =====
-- `get_wallet_info` of wallet/src/main.rs: the ids of the contracts by their states.
pub mod Buckets
use dlc_stack.Base.{
  ℕ, zero, suc, String, Bool, List, [], ◌∷◌, ◌++◌, Result, ok, err, map, keep, nat_eq, ◌≡◌, refl,
  sym, ap, ◌∙◌, arith, if◌then◌else◌, inl, inr, Bool-cases, Option, none, some,
}
use dlc_stack.Manager.Types.{
  ContractId, Contract, offered, accepted, signed, confirmed, refunded, pre_closed, closed,
  failed_accept, failed_sign, rejected,
}
use dlc_stack.Api.Json.{Json, Items, nil, cons, Fields, end, field, object, string, array}
use dlc_stack.Clients.Ids.{hex_bytes}

-- The index in `collected_contracts`.
abbrev pub index_of : Contract → ℕ
index_of (offered c) = 0
index_of (accepted c) = 1
index_of (confirmed c) = 2
index_of (signed c) = 3
index_of (closed c) = 4
index_of (refunded c) = 5
index_of (failed_accept c) = 6
index_of (failed_sign c) = 6
index_of (rejected c) = 7
index_of (pre_closed c) = 8

-- `collected_contracts[i].push(id)`, which panics past the end.
unfoldable pub push : ℕ → String → List (List String) → Option (List (List String))
push i id [] = none
push zero id (ids ∷ rest) = some ((ids ++ id ∷ []) ∷ rest)
push (suc i) id (ids ∷ rest) =
    let more = push i id rest in elim more [ none ↦ none | some r ↦ some (ids ∷ r) ]

abbrev pub nine_empty : List (List String)
nine_empty = [] ∷ [] ∷ [] ∷ [] ∷ [] ∷ [] ∷ [] ∷ [] ∷ [] ∷ []

module _ (get_id : Contract → ContractId) where
  -- The loop over the contracts.
  unfoldable pub collect : List Contract → List (List String) → Option (List (List String))
  collect [] collected = some collected
  collect (c ∷ cs) collected = elim (push (index_of c) (hex_bytes (get_id c)) collected) [
    | none ↦ none
    | some next ↦ collect cs next
  ]

abbrev pub strings : List String → Items
strings [] = nil
strings (s ∷ ss) = cons (string s) (strings ss)

abbrev pub labelled : List String → List (List String) → Fields
labelled [] collected = end
labelled (name ∷ names) [] = end
labelled (name ∷ names) (ids ∷ rest) = field name (array (strings ids)) (labelled names rest)

abbrev pub state_names : List String
state_names =
    "Offered" ∷ "Accepted" ∷ "Confirmed" ∷ "Signed" ∷ "Closed" ∷ "Refunded" ∷ "Failed" ∷ "Rejected"
    ∷ "PreClosed" ∷ []

abbrev pub info_json : String → List (List String) → Json
info_json address collected = object (
    field "wallet" (object (field "address" (string address) end))
      (field "contracts" (object (labelled state_names collected)) end))
