-- ===== src/Manager/Messages/Allowed.antt =====
-- Which writes the messages of a peer and the calls of the user may lead to in
-- dlc-link-manager/src/lib.rs, each with the state and the answers that must come before it.
use dlc_stack.Base.{ℕ, String, ◌≡◌, true, Option, none, some, List, ◌∷◌, ok, err}
use dlc_stack.Manager.Types.{
  ContractId, Error, OracleAnnouncement, OfferedContract, AcceptedContract, SignedContract,
  Transaction, Contract, offered, accepted, signed, failed_accept, failed_sign, OfferDlc, AcceptDlc,
  SignDlc, DlcMessage, offer, accept, sign,
}
use dlc_stack.Manager.Monad.{
  Trace, Call, get_contract, create_contract, update_contract, get_network, send_transaction,
  get_announcement, import_address,
}
use dlc_stack.Manager.Peers.{Peers, ContractInput}
use dlc_stack.Manager.Messages.{is_peer, calculate_denominator_from_basis_points}

-- What the user does with the manager, or what a peer sends to it.
pub data Operation : Type 0 where
  sends_offer : ContractInput → String → ℕ → ℕ → String → Operation
  accepts_offer : ContractId → Operation
  receives : DlcMessage → String → Operation

module _ (env : Peers) where
  -- The newest call looked the contract up, and found it; the peer, if one is asked for, is the
  -- other party of it.
  pub data Held (id : ContractId) (peer : Option String) (c : Contract) : Trace → Type 0 where
    held :
        {v : Trace}
        → env.get_contract v id ≡ ok (some c)
        → is_peer env peer c ≡ true
        → Held id peer c (get_contract id ∷ v)

  abbrev pub funding_address : AcceptedContract → String → String
  funding_address c network = env.p2wsh c.dlc_transactions.funding_script_pubkey network

  -- The wallet has been told to watch the funding output.
  pub data Imported (c : AcceptedContract) (v : Trace) : Trace → Type 0 where
    imported :
        {network : String}
        → env.get_network v ≡ ok network
        → env.import_address (get_network ∷ v) (funding_address c network) ≡ ok tt
        → Imported c v (import_address (funding_address c network) ∷ get_network ∷ v)

  pub data Allowed : Operation → Trace → Call → Type 0 where
    looks_up : {op : Operation} {w : Trace} {id : ContractId} → Allowed op w (get_contract id)
    asks_network : {op : Operation} {w : Trace} → Allowed op w get_network
    imports :
        {op : Operation} {w : Trace} {address : String} → Allowed op w (import_address address)
    asks_oracle :
        {op : Operation} {w : Trace} {key event_id : String}
        → Allowed op w (get_announcement key event_id)
    -- an own offer
    offers :
        {w : Trace} {input : ContractInput} {found : List (List OracleAnnouncement)}
        {delay points : ℕ} {peer address : String} {made : OfferedContract × OfferDlc}
        → env.offer_contract w input found delay peer
            (calculate_denominator_from_basis_points env points)
            address
          ≡ ok made
        → env.validate_contract made.0 ≡ ok tt
        → Allowed (sends_offer input peer delay points address) w (create_contract made.0)
    -- the offer of a peer, under an id that is free
    takes_offer :
        {v : Trace} {o : OfferDlc} {peer : String} {c : OfferedContract}
        → env.validate_offer o ≡ ok tt
        → env.try_from_offer_dlc o peer ≡ ok c
        → env.validate_contract c ≡ ok tt
        → env.get_contract v c.id ≡ ok none
        → Allowed (receives (offer o) peer) (get_contract c.id ∷ v) (create_contract c)
    -- an offered contract is accepted by the user
    accepts :
        {v w : Trace} {id : ContractId} {o : OfferedContract} {made : AcceptedContract × AcceptDlc}
        → Held id none (offered o) v
        → env.accept_contract v o ≡ ok made
        → Imported made.0 v w
        → Allowed (accepts_offer id) w (update_contract (accepted made.0))
    -- an offered contract is signed, when its peer has accepted it
    signs :
        {v w : Trace} {peer : String} {m : AcceptDlc} {o : OfferedContract}
        {made : SignedContract × SignDlc}
        → Held m.temporary_contract_id (some peer) (offered o) v
        → env.verify_accepted_and_sign_contract v o m ≡ ok made
        → Imported made.0.accepted_contract v w
        → Allowed (receives (accept m) peer) w (update_contract (signed made.0))
    fails_accept :
        {v : Trace} {peer : String} {m : AcceptDlc} {o : OfferedContract} {e : Error}
        → Held m.temporary_contract_id (some peer) (offered o) v
        → env.verify_accepted_and_sign_contract v o m ≡ err e
        → Allowed (receives (accept m) peer) v (
            update_contract (
              failed_accept (record {
                offered_contract = o;
                accept_message = m;
                error_message = env.error_to_string e;
              })))
    -- an accepted contract is signed, when its peer has signed it; then it is funded
    completes :
        {v : Trace} {peer : String} {m : SignDlc} {a : AcceptedContract}
        {made : SignedContract × Transaction}
        → Held m.contract_id (some peer) (accepted a) v
        → env.verify_signed_contract v a m ≡ ok made
        → Allowed (receives (sign m) peer) v (update_contract (signed made.0))
    funds :
        {v : Trace} {peer : String} {m : SignDlc} {a : AcceptedContract}
        {made : SignedContract × Transaction}
        → Held m.contract_id (some peer) (accepted a) v
        → env.verify_signed_contract v a m ≡ ok made
        → env.update_contract v (signed made.0) ≡ ok tt
        → Allowed
            (receives (sign m) peer)
            (update_contract (signed made.0) ∷ v)
            (send_transaction made.1)
    fails_sign :
        {v : Trace} {peer : String} {m : SignDlc} {a : AcceptedContract} {e : Error}
        → Held m.contract_id (some peer) (accepted a) v
        → env.verify_signed_contract v a m ≡ err e
        → Allowed (receives (sign m) peer) v (
            update_contract (
              failed_sign (record {
                accepted_contract = a;
                sign_message = m;
                error_message = env.error_to_string e;
              })))
