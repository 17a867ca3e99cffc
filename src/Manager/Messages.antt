-- ===== src/Manager/Messages.antt =====
-- Offers and messages: `send_offer`, `accept_contract_offer` and `on_dlc_message` of
-- dlc-link-manager/src/lib.rs.
pub mod Allowed
pub mod Transitions
pub mod Operations
pub mod Answers
pub mod Signed
use dlc_stack.Base.{
  ℕ, zero, suc, String, Bool, true, Option, none, some, List, [], ◌∷◌, ◌==◌, if◌then◌else◌, Result,
  ok, err, exists_in,
}
use dlc_stack.Manager.Types.{
  ContractId, Error, invalid_parameters, invalid_state, Transaction, OracleAnnouncement,
  OfferedContract, AcceptedContract, SignedContract, Contract, offered, accepted, signed,
  failed_accept, failed_sign, OfferDlc, AcceptDlc, SignDlc, DlcMessage, offer, accept, sign,
  other_message,
}
use dlc_stack.Manager.Monad.{
  get_contract, create_contract, update_contract, get_network, send_transaction, get_announcement,
  import_address, Action, pure, raise, lift, ask, ◌>>=◌, ◌>>◌,
}
use dlc_stack.Manager.Peers.{Peers, ContractInput, ContractInputInfo}

abbrev pub as_offered : Contract → Option OfferedContract
as_offered (offered c) = some c
as_offered (accepted c) = none
as_offered _ = none

abbrev pub as_accepted : Contract → Option AcceptedContract
as_accepted (accepted c) = some c
as_accepted (offered c) = none
as_accepted _ = none

abbrev pub manager_oracles : Option (List String) → Action (List String)
manager_oracles none = raise (invalid_parameters "Manager instantiated without oracles")
manager_oracles (some oracles) = pure oracles

-- The public keys of one input, each of which must be known.
unfoldable pub known_oracles : List String → List String → Result Error (List String)
known_oracles oracles [] = ok []
known_oracles oracles (k ∷ ks) =
    let rest = known_oracles oracles ks in
    if exists_in (λ o. o == k) oracles
    then elim rest [ ok found ↦ ok (k ∷ found) | err e ↦ err e ]
    else err (invalid_parameters "Unknown oracle public key")

unfoldable pub oracle_set : List String → List ContractInputInfo → Result Error (List (List String))
oracle_set oracles [] = ok []
oracle_set oracles (x ∷ xs) =
    let rest = oracle_set oracles xs in
    elim (known_oracles oracles x.oracles.public_keys) [
      | err e ↦ err e
      | ok found ↦ elim rest [ ok more_found ↦ ok (found ∷ more_found) | err e ↦ err e ]
    ]

abbrev pub first_info : List ContractInputInfo → Action ContractInputInfo
first_info [] = raise (invalid_parameters "Contract Input Info missing")
first_info (x ∷ xs) = pure x

abbrev pub reject_known : Option Contract → Action (Unit {0})
reject_known none = pure tt
reject_known (some c) = raise (invalid_parameters "Contract with identical id already exists")

module _ (env : Peers) where
  unfoldable pub calculate_denominator_from_basis_points : ℕ → ℕ
  calculate_denominator_from_basis_points zero = 0
  calculate_denominator_from_basis_points (suc b) =
      let hundred = env.float.from_u64 100 in
      env.float.to_u64 (env.float.mul (env.float.div hundred (env.float.from_u64 (suc b))) hundred)

  -- The calls that the manager makes.
  abbrev pub stored : ContractId → Action (Option Contract)
  stored id = ask (get_contract id) (λ w. env.get_contract w id)

  abbrev pub create : OfferedContract → Action (Unit {0})
  create c = ask (create_contract c) (λ w. env.create_contract w c)

  abbrev pub store : Contract → Action (Unit {0})
  store c = ask (update_contract c) (λ w. env.update_contract w c)

  abbrev pub import : String → Action (Unit {0})
  import a = ask (import_address a) (λ w. env.import_address w a)

  -- `get_contract_in_state!`: the contract, if the peer is its counter party and it is in the state
  -- that the selector takes.
  abbrev pub is_peer : Option String → Contract → Bool
  is_peer none c = true
  is_peer (some p) c = env.get_counter_party_id c == p

  module _ {A : Type 0} (state : Contract → Option A) where
    abbrev pub in_state : Option A → Action A
    in_state none = raise (invalid_state "Invalid state")
    in_state (some a) = pure a

    abbrev pub checked : Option String → Option Contract → Action A
    checked peer none = raise (invalid_parameters "Unknown Contract id.")
    checked peer (some c) =
        if is_peer peer c
        then in_state (state c)
        else raise (invalid_parameters "Peer is not involved with contract")

    unfoldable pub get_contract_in_state : ContractId → Option String → Action A
    get_contract_in_state id peer = stored id >>= checked peer

  unfoldable pub announcements : String → List String → Action (List OracleAnnouncement)
  announcements event_id [] = pure []
  announcements event_id (k ∷ ks) = do
    a ← ask (get_announcement k event_id) (λ w. env.get_announcement w k event_id)
    rest ← announcements event_id ks
    pure (a ∷ rest)

  unfoldable pub all_announcements :
      String → List (List String) → Action (List (List OracleAnnouncement))
  all_announcements event_id [] = pure []
  all_announcements event_id (ks ∷ rest) = do
    a ← announcements event_id ks
    more_found ← all_announcements event_id rest
    pure (a ∷ more_found)

  unfoldable pub send_offer : ContractInput → String → ℕ → ℕ → String → Action OfferDlc
  send_offer contract_input counter_party refund_delay protocol_fee_basis_points fee_address = do
    oracles ← manager_oracles env.oracles
    lift (env.validate_input contract_input)
    info ← first_info contract_input.contract_infos
    set ← lift (oracle_set oracles contract_input.contract_infos)
    found ← all_announcements info.oracles.event_id set
    offer_made ← (λ w.
        lift
          (env.offer_contract w contract_input found refund_delay counter_party
            (calculate_denominator_from_basis_points protocol_fee_basis_points) fee_address)
          w)
    let offered_contract = offer_made.0
    lift (env.validate_contract offered_contract)
    create offered_contract
    pure offer_made.1

  -- `import_address` of the funding script on the active network.
  abbrev pub import_funding : AcceptedContract → Action (Unit {0})
  import_funding c = do
    network ← ask get_network env.get_network
    import (env.p2wsh c.dlc_transactions.funding_script_pubkey network)

  unfoldable pub accept_contract_offer : ContractId → Action (ContractId × String × AcceptDlc)
  accept_contract_offer contract_id = do
    offered_contract ← get_contract_in_state as_offered contract_id none
    made ← (λ w. lift (env.accept_contract w offered_contract) w)
    import_funding made.0
    store (accepted made.0)
    pure (env.get_contract_id made.0, offered_contract.counter_party, made.1)

  unfoldable pub on_offer_message : OfferDlc → String → Action (Unit {0})
  on_offer_message offered_message counter_party = do
    lift (env.validate_offer offered_message)
    contract ← lift (env.try_from_offer_dlc offered_message counter_party)
    lift (env.validate_contract contract)
    known ← stored contract.id
    reject_known known
    create contract

  -- The error is stored with the contract, and returned.
  unfoldable pub accept_fail_on_error :
      {R : Type 0} → OfferedContract → AcceptDlc → Error → Action R
  accept_fail_on_error offered_contract accept_message e = do
    store (
        failed_accept (record {
          offered_contract = offered_contract;
          accept_message = accept_message;
          error_message = env.error_to_string e;
        }))
    raise e

  unfoldable pub sign_fail_on_error : {R : Type 0} → AcceptedContract → SignDlc → Error → Action R
  sign_fail_on_error accepted_contract sign_message e = do
    store (
        failed_sign (record {
          accepted_contract = accepted_contract;
          sign_message = sign_message;
          error_message = env.error_to_string e;
        }))
    raise e

  unfoldable pub on_accept_verified :
      OfferedContract → AcceptDlc → Result Error (SignedContract × SignDlc) → Action DlcMessage
  on_accept_verified o accept_msg (err e) = accept_fail_on_error o accept_msg e
  on_accept_verified o accept_msg (ok made) = do
    import_funding made.0.accepted_contract
    store (signed made.0)
    pure (sign made.1)

  unfoldable pub on_accept_message : AcceptDlc → String → Action DlcMessage
  on_accept_message accept_msg counter_party = do
    o ← get_contract_in_state as_offered accept_msg.temporary_contract_id (some counter_party)
    λ w. on_accept_verified o accept_msg (env.verify_accepted_and_sign_contract w o accept_msg) w

  unfoldable pub on_sign_verified :
      AcceptedContract → SignDlc → Result Error (SignedContract × Transaction) → Action (Unit {0})
  on_sign_verified a sign_message (err e) = sign_fail_on_error a sign_message e
  on_sign_verified a sign_message (ok made) = do
    store (signed made.0)
    ask (send_transaction made.1) (λ w. env.send_transaction w made.1)

  unfoldable pub on_sign_message : SignDlc → String → Action (Unit {0})
  on_sign_message sign_message peer_id = do
    a ← get_contract_in_state as_accepted sign_message.contract_id (some peer_id)
    λ w. on_sign_verified a sign_message (env.verify_signed_contract w a sign_message) w

  unfoldable pub on_dlc_message : DlcMessage → String → Action (Option DlcMessage)
  on_dlc_message (offer o) counter_party = do on_offer_message o counter_party; pure none
  on_dlc_message (accept a) counter_party = do m ← on_accept_message a counter_party; pure (some m)
  on_dlc_message (sign s) counter_party = do on_sign_message s counter_party; pure none
  on_dlc_message other_message counter_party = raise (invalid_state "Invalid message type.")
