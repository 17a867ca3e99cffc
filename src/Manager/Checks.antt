-- ===== src/Manager/Checks.antt =====
-- The periodic check of dlc-link-manager/src/lib.rs: signed contracts are confirmed, confirmed ones
-- closed or refunded, and pre-closed ones closed.
pub mod Justified
pub mod Evidence
pub mod Closable
pub mod Closing
pub mod Rounds
pub mod Loops
pub mod Outcomes
use dlc_stack.Base.{
  ℕ, suc, String, Bool, true, false, Option, none, some, List, [], ◌∷◌, ◌++◌, ◌==◌, ltb, leb,
  nat_eq, if◌then◌else◌, Result, ok, err, ok_or, exists_in, first, map, length,
}
use dlc_stack.Manager.Types.{
  ContractId, Error, invalid_parameters, invalid_state, Transaction, OracleAnnouncement,
  OracleAttestation, ContractInfo, SignedContract, PreClosedContract, Contract, confirmed, refunded,
  pre_closed, closed,
}
use dlc_stack.Manager.Monad.{
  get_signed_contracts, get_confirmed_contracts, get_preclosed_contracts,
  get_transaction_confirmations, send_transaction, get_unixtime, get_attestation, Action, pure,
  raise, lift, attempt, ask, ◌>>=◌, ◌>>◌,
}
use dlc_stack.Manager.Peers.{Peers}
use dlc_stack.Manager.Messages.{store}

abbrev pub nb_confirmations : ℕ
nb_confirmations = 6

-- The id under which the event of a contract is known outside: that of its first announcement.
abbrev pub first_announcement : List ContractInfo → Option String
first_announcement [] = none
first_announcement (info ∷ rest) = elim (first info.oracle_announcements) [
  | none ↦ none
  | some a ↦ some a.event_id
]

abbrev pub Affected : Type 0
Affected = List (ContractId × String)

-- One round of a loop over contracts: an affected contract is noted, a failed check is logged.
abbrev pub note : ContractId → List ContractInfo → Affected → Result Error Bool → Action Affected
note id infos acc (ok true) = do
  event_id ← lift (ok_or (invalid_state "Missing oracle event ID") (first_announcement infos))
  pure (acc ++ (id, event_id) ∷ [])
note id infos acc (ok false) = pure acc
note id infos acc (err e) = pure acc

-- `filter(is_ok)` on the attestations, which keep the index of their announcement.
abbrev pub collected :
    Option OracleAttestation → ℕ → List (ℕ × OracleAttestation) → List (ℕ × OracleAttestation)
collected none i rest = rest
collected (some a) i rest = (i, a) ∷ rest

abbrev pub is_ok : Result Error OracleAttestation → Option OracleAttestation
is_ok (ok a) = some a
is_ok (err e) = none

abbrev pub Closable : Type 0
Closable = ContractInfo × String × List (ℕ × OracleAttestation)

abbrev pub closable_oracles : Option (List String) → Action (List String)
closable_oracles none = raise (invalid_parameters "Manager instantiated without oracles")
closable_oracles (some oracles) = pure oracles

abbrev pub pre_closed_by : SignedContract → Transaction → List OracleAttestation → Contract
pre_closed_by contract signed_cet attestations = pre_closed (record {
  signed_contract = contract;
  attestations = some attestations;
  signed_cet = signed_cet;
})

module _ (env : Peers) where
  abbrev pub confirmations_of : Transaction → Action ℕ
  confirmations_of tx =
      ask (get_transaction_confirmations tx.txid) (λ w. env.get_transaction_confirmations w tx.txid)

  abbrev pub broadcast : Transaction → Action (Unit {0})
  broadcast tx = ask (send_transaction tx) (λ w. env.send_transaction w tx)

  unfoldable pub check_signed_contract : SignedContract → Action Bool
  check_signed_contract contract = do
    confirmations ← confirmations_of contract.accepted_contract.dlc_transactions.fund
    if leb nb_confirmations confirmations
        then (do store env (confirmed contract); pure true)
        else pure false

  unfoldable pub check_signed : List SignedContract → Affected → Action Affected
  check_signed [] acc = pure acc
  check_signed (c ∷ cs) acc = do
    r ← attempt (check_signed_contract c)
    acc' ←
        note (env.get_contract_id c.accepted_contract)
          c.accepted_contract.offered_contract.contract_info acc r
    check_signed cs acc'

  unfoldable pub check_signed_contracts : Action Affected
  check_signed_contracts = do
    contracts ← ask get_signed_contracts env.get_signed_contracts
    check_signed contracts []

  -- The attestation of one announcement; an oracle that is not known is not asked.
  abbrev pub attestation_of : List String → OracleAnnouncement → Action OracleAttestation
  attestation_of oracles a =
      if exists_in (λ o. o == a.oracle_public_key) oracles
      then ask (get_attestation a.oracle_public_key a.event_id)
          (λ w. env.get_attestation w a.oracle_public_key a.event_id)
      else raise (invalid_parameters "Unknown oracle public key")

  unfoldable pub attestations_from :
      List String → ℕ → List OracleAnnouncement → Action (List (ℕ × OracleAttestation))
  attestations_from oracles i [] = pure []
  attestations_from oracles i (a ∷ rest) = do
    r ← attempt (attestation_of oracles a)
    others ← attestations_from oracles (suc i) rest
    pure (collected (is_ok r) i others)

  -- The first contract info with at least `threshold` attestations, with its adaptor info.
  unfoldable pub find_closable :
      List String → List ContractInfo → List String → Action (Option Closable)
  find_closable oracles [] adaptors = pure none
  find_closable oracles (info ∷ infos) [] = pure none
  find_closable oracles (info ∷ infos) (adaptor ∷ adaptors) =
      let rest = find_closable oracles infos adaptors in
      if leb info.threshold (length info.oracle_announcements)
      then (do
        found ← attestations_from oracles 0 info.oracle_announcements
        if leb info.threshold (length found) then pure (some (info, adaptor, found)) else rest)
      else rest

  unfoldable pub get_closable_contract_info : SignedContract → Action (Option Closable)
  get_closable_contract_info contract = do
    oracles ← closable_oracles env.oracles
    find_closable oracles contract.accepted_contract.offered_contract.contract_info
        contract.accepted_contract.adaptor_infos

  abbrev pub closed_by : SignedContract → Transaction → Option (List OracleAttestation) → Contract
  closed_by contract signed_cet attestations = closed (record {
    attestations = attestations;
    signed_cet = some signed_cet;
    contract_id = env.get_contract_id contract.accepted_contract;
    temporary_contract_id = contract.accepted_contract.offered_contract.id;
    counter_party_id = contract.accepted_contract.offered_contract.counter_party;
    pnl = env.compute_pnl contract.accepted_contract signed_cet;
  })

  unfoldable pub close_contract :
      SignedContract → Transaction → List OracleAttestation → Action Contract
  close_contract contract signed_cet attestations = do
    confirmations ← confirmations_of signed_cet
    if ltb confirmations 1
        then (do broadcast signed_cet; pure (pre_closed_by contract signed_cet attestations))
        else if ltb confirmations nb_confirmations
        then pure (pre_closed_by contract signed_cet attestations)
        else pure (closed_by contract signed_cet (some attestations))

  unfoldable pub check_refund : SignedContract → Action (Unit {0})
  check_refund contract = do
    unixtime ← ask get_unixtime env.get_unixtime
    let refund = contract.accepted_contract.dlc_transactions.refund
    if leb refund.lock_time unixtime
        then (do
          confirmations ← confirmations_of refund
          if nat_eq confirmations 0
              then (do
                signed_refund ← lift (env.get_signed_refund contract)
                broadcast signed_refund
                store env (refunded contract))
              else store env (refunded contract))
        else pure tt

  unfoldable pub check_closable : SignedContract → Result Error (Option Closable) → Action Bool
  check_closable contract (ok (some (info, adaptor, attestations))) = do
    cet ← lift (env.get_signed_cet contract info adaptor attestations)
    closed_contract ← close_contract contract cet (map (λ x. x.1) attestations)
    store env closed_contract
    pure true
  check_closable contract (ok none) = do check_refund contract; pure false
  check_closable contract (err e) = do check_refund contract; pure false

  unfoldable pub check_confirmed_contract : SignedContract → Action Bool
  check_confirmed_contract contract = do
    closable ← attempt (get_closable_contract_info contract)
    check_closable contract closable

  -- Contracts of a channel are left out.
  abbrev pub check_unless_channel : Option ContractId → SignedContract → Affected → Action Affected
  check_unless_channel (some channel) c acc = pure acc
  check_unless_channel none c acc = do
    r ← attempt (check_confirmed_contract c)
    note (env.get_contract_id c.accepted_contract)
        c.accepted_contract.offered_contract.contract_info acc r

  unfoldable pub check_confirmed : List SignedContract → Affected → Action Affected
  check_confirmed [] acc = pure acc
  check_confirmed (c ∷ cs) acc = do
    acc' ← check_unless_channel c.channel_id c acc
    check_confirmed cs acc'

  unfoldable pub check_confirmed_contracts : Action Affected
  check_confirmed_contracts = do
    contracts ← ask get_confirmed_contracts env.get_confirmed_contracts
    check_confirmed contracts []

  unfoldable pub check_preclosed_contract : PreClosedContract → Action Bool
  check_preclosed_contract contract = do
    confirmations ← confirmations_of contract.signed_cet
    if leb nb_confirmations confirmations
        then (do
          store env (closed_by contract.signed_contract contract.signed_cet contract.attestations)
          pure true)
        else pure false

  unfoldable pub check_preclosed : List PreClosedContract → Affected → Action Affected
  check_preclosed [] acc = pure acc
  check_preclosed (c ∷ cs) acc = do
    r ← attempt (check_preclosed_contract c)
    acc' ←
        note (env.get_contract_id c.signed_contract.accepted_contract)
          c.signed_contract.accepted_contract.offered_contract.contract_info acc r
    check_preclosed cs acc'

  unfoldable pub check_preclosed_contracts : Action Affected
  check_preclosed_contracts = do
    contracts ← ask get_preclosed_contracts env.get_preclosed_contracts
    check_preclosed contracts []

  unfoldable pub periodic_check : Action Affected
  periodic_check = do
    newly_confirmed ← check_signed_contracts
    newly_closed ← check_confirmed_contracts
    finally_closed ← check_preclosed_contracts
    pure (newly_confirmed ++ newly_closed ++ finally_closed)
