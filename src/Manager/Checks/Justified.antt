-- ===== src/Manager/Checks/Justified.antt =====
-- Why the periodic check of dlc-link-manager/src/lib.rs may store a state or send a transaction:
-- for each such call, the answers that must come before it in the trace.
use dlc_stack.Base.{
  ℕ, suc, String, ◌≡◌, ◌==◌, true, leb, ltb, some, ok, List, [], ◌∷◌, length, map, exists_in,
}
use dlc_stack.Manager.Types.{
  ContractInfo, OracleAnnouncement, OracleAttestation, Transaction, SignedContract,
  PreClosedContract, confirmed, refunded,
}
use dlc_stack.Manager.Monad.{
  Trace, Call, Extends, same, more, get_signed_contracts, get_confirmed_contracts,
  get_preclosed_contracts, get_transaction_confirmations, get_unixtime, get_attestation,
  update_contract, send_transaction,
}
use dlc_stack.Manager.Peers.{Peers}
use dlc_stack.Manager.Checks.{nb_confirmations, pre_closed_by, closed_by}

-- A contract info and an adaptor info that stand at the same place of two lists.
pub data Paired (info : ContractInfo) (adaptor : String)
    : List ContractInfo → List String → Type 0 where
  here :
      {infos : List ContractInfo} {adaptors : List String}
      → Paired info adaptor (info ∷ infos) (adaptor ∷ adaptors)
  there :
      {i : ContractInfo} {x : String} {infos : List ContractInfo} {adaptors : List String}
      → Paired info adaptor infos adaptors
      → Paired info adaptor (i ∷ infos) (x ∷ adaptors)

module _ (env : Peers) where
  -- The newest call asked for the confirmations of the transaction, and the answer was `n`.
  pub data Confirmations (tx : String) (n : ℕ) : Trace → Type 0 where
    answered :
        {v : Trace}
        → env.get_transaction_confirmations v tx ≡ ok n
        → Confirmations tx n (get_transaction_confirmations tx ∷ v)

  -- An earlier call asked for the attestation of an event, and the answer was `a`.
  pub data Attested (key event_id : String) (a : OracleAttestation) : Trace → Type 0 where
    now :
        {v : Trace}
        → env.get_attestation v key event_id ≡ ok a
        → Attested key event_id a (get_attestation key event_id ∷ v)
    before : {v : Trace} {c : Call} → Attested key event_id a v → Attested key event_id a (c ∷ v)

  -- Attestations of known oracles to some of the announcements, each with the index of its
  -- announcement, the first of which is `i`.
  pub data Collected (oracles : List String) (w : Trace)
      : ℕ → List OracleAnnouncement → List (ℕ × OracleAttestation) → Type 0 where
    none_left : {i : ℕ} → Collected oracles w i [] []
    left_out :
        {i : ℕ} {a : OracleAnnouncement} {rest : List OracleAnnouncement}
        {found : List (ℕ × OracleAttestation)}
        → Collected oracles w (suc i) rest found
        → Collected oracles w i (a ∷ rest) found
    taken :
        {i : ℕ} {a : OracleAnnouncement} {rest : List OracleAnnouncement}
        {found : List (ℕ × OracleAttestation)} {attestation : OracleAttestation}
        → exists_in (λ o. o == a.oracle_public_key) oracles ≡ true
        → Attested a.oracle_public_key a.event_id attestation w
        → Collected oracles w (suc i) rest found
        → Collected oracles w i (a ∷ rest) ((i, attestation) ∷ found)

  -- The signed outcome of a contract, made from one of its contract infos, with the adaptor info at
  -- the same place, and as many attestations to the announcements of that info as its threshold.
  pub record IsOutcome (contract : SignedContract) (cet : Transaction)
      (attestations : List OracleAttestation) (w : Trace) : Type 0 where
    pub oracles : List String
    pub has_oracles : env.oracles ≡ some oracles
    pub info : ContractInfo
    pub adaptor : String
    pub paired :
        Paired info adaptor contract.accepted_contract.offered_contract.contract_info
          contract.accepted_contract.adaptor_infos
    pub indexed : List (ℕ × OracleAttestation)
    pub collected : Collected oracles w 0 info.oracle_announcements indexed
    pub reached : leb info.threshold (length indexed) ≡ true
    pub used : map (λ x. x.1) indexed ≡ attestations
    pub signed : env.get_signed_cet contract info adaptor indexed ≡ ok cet

  pub Attested-later :
      {P : Trace → Call → Type 0} {key event_id : String} {a : OracleAttestation} {v w : Trace}
      → Extends P v w
      → Attested key event_id a v
      → Attested key event_id a w
  Attested-later same h = h
  Attested-later (more e p) h = before (Attested-later e h)

  pub Collected-later :
      {oracles : List String} {w : Trace} (c : Call) {i : ℕ} {rest : List OracleAnnouncement}
      {found : List (ℕ × OracleAttestation)}
      → Collected oracles w i rest found
      → Collected oracles (c ∷ w) i rest found
  Collected-later c none_left = none_left
  Collected-later c (left_out h) = left_out (Collected-later c h)
  Collected-later c (taken known a h) = taken known (before a) (Collected-later c h)

  pub IsOutcome-later :
      {contract : SignedContract} {cet : Transaction} {attestations : List OracleAttestation}
      {w : Trace} (c : Call)
      → IsOutcome contract cet attestations w
      → IsOutcome contract cet attestations (c ∷ w)
  IsOutcome-later c o = record {
    oracles = o.oracles;
    has_oracles = o.has_oracles;
    info = o.info;
    adaptor = o.adaptor;
    paired = o.paired;
    indexed = o.indexed;
    collected = Collected-later c o.collected;
    reached = o.reached;
    used = o.used;
    signed = o.signed;
  }

  -- The clock was asked, had passed the lock time of the refund transaction, and then the
  -- confirmations of that transaction were asked, of which there were `n`.
  pub data IsRefundable (contract : SignedContract) (n : ℕ) : Trace → Type 0 where
    matured :
        {v : Trace} {now : ℕ}
        → env.get_unixtime v ≡ ok now
        → leb contract.accepted_contract.dlc_transactions.refund.lock_time now ≡ true
        → env.get_transaction_confirmations
            (get_unixtime ∷ v)
            contract.accepted_contract.dlc_transactions.refund.txid
          ≡ ok n
        → IsRefundable contract n (
            get_transaction_confirmations contract.accepted_contract.dlc_transactions.refund.txid
            ∷ get_unixtime
            ∷ v)

  pub data Justified : Trace → Call → Type 0 where
    reads_signed : {w : Trace} → Justified w get_signed_contracts
    reads_confirmed : {w : Trace} → Justified w get_confirmed_contracts
    reads_preclosed : {w : Trace} → Justified w get_preclosed_contracts
    reads_confirmations : {w : Trace} {tx : String} → Justified w (get_transaction_confirmations tx)
    reads_time : {w : Trace} → Justified w get_unixtime
    reads_attestation :
        {w : Trace} {key event_id : String} → Justified w (get_attestation key event_id)
    -- six confirmations of the funding transaction
    confirms :
        {w : Trace} {c : SignedContract} {n : ℕ}
        → Confirmations c.accepted_contract.dlc_transactions.fund.txid n w
        → leb nb_confirmations n ≡ true
        → Justified w (update_contract (confirmed c))
    -- an outcome that is not confirmed yet is sent
    sends_cet :
        {w : Trace} {c : SignedContract} {cet : Transaction} {attestations : List OracleAttestation}
        {n : ℕ}
        → IsOutcome c cet attestations w
        → Confirmations cet.txid n w
        → ltb n 1 ≡ true
        → Justified w (send_transaction cet)
    -- after it was sent without an error
    pre_closes_sent :
        {w : Trace} {c : SignedContract} {cet : Transaction} {attestations : List OracleAttestation}
        {n : ℕ}
        → IsOutcome c cet attestations w
        → Confirmations cet.txid n w
        → env.send_transaction w cet ≡ ok tt
        → Justified (send_transaction cet ∷ w) (update_contract (pre_closed_by c cet attestations))
    -- or it has one to five confirmations
    pre_closes_seen :
        {w : Trace} {c : SignedContract} {cet : Transaction} {attestations : List OracleAttestation}
        {n : ℕ}
        → IsOutcome c cet attestations w
        → Confirmations cet.txid n w
        → leb 1 n ≡ true
        → ltb n nb_confirmations ≡ true
        → Justified w (update_contract (pre_closed_by c cet attestations))
    -- six confirmations of an outcome, or of the transaction of a pre-closed contract
    closes :
        {w : Trace} {c : SignedContract} {cet : Transaction} {attestations : List OracleAttestation}
        {n : ℕ}
        → IsOutcome c cet attestations w
        → Confirmations cet.txid n w
        → leb nb_confirmations n ≡ true
        → Justified w (update_contract (closed_by env c cet (some attestations)))
    closes_pre_closed :
        {w : Trace} (p : PreClosedContract) {n : ℕ}
        → Confirmations p.signed_cet.txid n w
        → leb nb_confirmations n ≡ true
        → Justified w
            (update_contract (closed_by env p.signed_contract p.signed_cet p.attestations))
    -- the refund, once its lock time has passed: sent if it has no confirmation
    sends_refund :
        {w : Trace} {c : SignedContract} {refund : Transaction}
        → IsRefundable c 0 w
        → env.get_signed_refund c ≡ ok refund
        → Justified w (send_transaction refund)
    refunds_sent :
        {w : Trace} {c : SignedContract} {refund : Transaction}
        → IsRefundable c 0 w
        → env.send_transaction w refund ≡ ok tt
        → Justified (send_transaction refund ∷ w) (update_contract (refunded c))
    refunds_seen :
        {w : Trace} {c : SignedContract} {n : ℕ}
        → IsRefundable c n w
        → leb 1 n ≡ true
        → Justified w (update_contract (refunded c))
