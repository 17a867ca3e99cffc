-- ===== src/Manager/Tests.antt =====
-- A manager with one contract, which the theorems are applied to.
use dlc_stack.Base.{
  ℕ, String, ◌≡◌, refl, none, some, [], ◌∷◌, ◌*◌, ◌/◌, arith, ok, err, if◌then◌else◌, ◌==◌,
}
use dlc_stack.Manager.Types.{
  signed, Transaction, OracleAnnouncement, OracleAttestation, ContractInfo, OfferedContract,
  AcceptedContract, SignedContract, offered, confirmed, invalid_parameters, AcceptDlc, SignDlc,
  accept, sign, Error,
}
use dlc_stack.Manager.Monad.{
  import_address, get_network, Trace, Extends, get_contract, get_signed_contracts,
  get_confirmed_contracts, get_preclosed_contracts, get_transaction_confirmations, get_attestation,
  send_transaction, update_contract, ◌>>=◌, ask, attempt, lift,
}
use dlc_stack.Manager.Peers.{Peers, Float, ContractInput}
use dlc_stack.Manager.Messages.{
  on_accept_message, on_accept_verified, get_contract_in_state, on_dlc_message,
}
use dlc_stack.Manager.Messages.Allowed.{Allowed, receives}
use dlc_stack.Manager.Messages.Operations.{called, operations-AreAllowed}
use dlc_stack.Manager.Messages.Signed.{IsSigned, answered_accept-IsSigned}
use dlc_stack.Manager.Messages.Answers.{unheld-IsRefused}
use dlc_stack.Manager.Checks.{
  Affected, periodic_check, check_signed_contracts, check_signed, check_signed_contract,
  pre_closed_by, check_confirmed_contracts, check_confirmed, check_confirmed_contract,
  get_closable_contract_info, find_closable, attestations_from, check_closable, close_contract,
  check_preclosed_contracts, check_preclosed, check_preclosed_contract,
}
use dlc_stack.Manager.Checks.Justified.{Justified}
use dlc_stack.Manager.Checks.Rounds.{periodic_check-IsJustified}
use dlc_stack.Manager.Checks.Outcomes.{
  Lists, periodic_check-returns, SignedRound, ConfirmedRound, PreclosedRound,
}

abbrev event : OracleAnnouncement
event = record { oracle_public_key = "oracle"; event_id = "event" }

abbrev info : ContractInfo
info = record { oracle_announcements = event ∷ []; threshold = 1 }

abbrev pub offered_contract : OfferedContract
offered_contract = record { id = 1 ∷ []; counter_party = "bob"; contract_info = info ∷ [] }

abbrev pub accepted_contract : AcceptedContract
accepted_contract = record {
  offered_contract = offered_contract;
  adaptor_infos = "adaptor" ∷ [];
  dlc_transactions = record {
    fund = record { txid = "fund"; lock_time = 0 };
    refund = record { txid = "refund"; lock_time = 1000 };
    funding_script_pubkey = "script";
  };
  accept_collateral = 0;
}

abbrev pub signed_contract : SignedContract
signed_contract = record { accepted_contract = accepted_contract; channel_id = none }

abbrev cet : Transaction
cet = record { txid = "cet"; lock_time = 0 }

abbrev attestation : OracleAttestation
attestation = record { oracle_public_key = "oracle"; signatures = []; outcomes = "1" ∷ [] }

abbrev integers : Float
integers = record {
  F64 = ℕ;
  from_u64 = λ n. n;
  to_u64 = λ n. n;
  div = λ a b. a / b;
  mul = λ a b. a * b;
}

-- The funding transaction has six confirmations, the outcome none.
abbrev confirmations_of : String → ℕ
confirmations_of tx = if tx == "fund" then 6 else 0

abbrev pub peers : Peers
peers = record {
  float = integers;
  oracles = some ("oracle" ∷ []);
  get_contract = λ w id. ok (some (offered offered_contract));
  get_signed_contracts = λ w. ok (signed_contract ∷ []);
  get_confirmed_contracts = λ w. ok (signed_contract ∷ []);
  get_preclosed_contracts = λ w. ok [];
  create_contract = λ w c. ok tt;
  update_contract = λ w c. ok tt;
  get_transaction_confirmations = λ w tx. ok (confirmations_of tx);
  send_transaction = λ w tx. ok tt;
  get_network = λ w. ok "regtest";
  get_unixtime = λ w. ok 500;
  get_announcement = λ w key event_id. ok event;
  get_attestation = λ w key event_id. ok attestation;
  p2wsh = λ script network. script;
  import_address = λ w address. ok tt;
  error_to_string = λ e. "error";
  get_counter_party_id = λ c. "bob";
  get_contract_id = λ c. 2 ∷ [];
  compute_pnl = λ c tx. "0";
  validate_input = λ input. ok tt;
  validate_offer = λ o. ok tt;
  validate_contract = λ c. ok tt;
  try_from_offer_dlc = λ o peer. ok offered_contract;
  offer_contract = λ w input found delay peer fee address.
      ok (offered_contract, record { temporary_contract_id = 1 ∷ [] });
  accept_contract = λ w o. ok (accepted_contract, record { temporary_contract_id = 1 ∷ [] });
  verify_accepted_and_sign_contract =
      λ w o m. ok (signed_contract, record { contract_id = 2 ∷ [] });
  verify_signed_contract = λ w a m. ok (signed_contract, accepted_contract.dlc_transactions.fund);
  get_signed_cet = λ c i adaptor found. ok cet;
  get_signed_refund = λ c. ok c.accepted_contract.dlc_transactions.refund;
}

-- One check confirms the contract, and, storage listing it as confirmed too, closes it.
abbrev checked : Trace
checked =
    get_preclosed_contracts
    ∷ update_contract (pre_closed_by signed_contract cet (attestation ∷ []))
    ∷ send_transaction cet
    ∷ get_transaction_confirmations "cet"
    ∷ get_attestation "oracle" "event"
    ∷ get_confirmed_contracts
    ∷ update_contract (confirmed signed_contract)
    ∷ get_transaction_confirmations "fund"
    ∷ get_signed_contracts
    ∷ []

periodic_check-run :
    periodic_check peers [] ≡ (ok ((2 ∷ [], "event") ∷ (2 ∷ [], "event") ∷ []), checked)
unfolding periodic_check check_signed_contracts check_signed check_signed_contract
    check_confirmed_contracts check_confirmed check_confirmed_contract get_closable_contract_info
    find_closable attestations_from check_closable close_contract check_preclosed_contracts
    check_preclosed check_preclosed_contract ◌>>=◌ ask attempt lift
periodic_check-run = refl

periodic_check-IsJustified_example : Extends (Justified peers) [] (periodic_check peers []).1
periodic_check-IsJustified_example = periodic_check-IsJustified peers []

listing : Lists peers
listing = record {
  lists_signed = λ w. (_, refl, (("event", refl), tt));
  lists_confirmed = λ w. (_, refl, (("event", refl), tt));
  lists_preclosed = λ w. (_, refl, tt);
}

periodic_check-returns_example :
    (affected : Affected) × ((periodic_check peers []).0 ≡ ok affected)
    × ((v : Trace) × (v' : Trace) × SignedRound peers [] v
        × ConfirmedRound peers v v'
        × PreclosedRound peers v' (periodic_check peers []).1)
periodic_check-returns_example = periodic_check-returns peers listing []

abbrev pub accept_message : AcceptDlc
accept_message = record { temporary_contract_id = 1 ∷ [] }

abbrev pub sign_message : SignDlc
sign_message = record { contract_id = 2 ∷ [] }

abbrev input : ContractInput
input = record {
  offer_collateral = 100;
  accept_collateral = 0;
  fee_rate = 1;
  contract_infos =
      (record {
        oracles = record { public_keys = "oracle" ∷ []; event_id = "event"; threshold = 1 };
        contract_descriptor = record {
          payout_function = record { payout_function_pieces = [] };
          begin_interval = 0;
          rounding_mod = 1;
          oracle_base = 2;
          oracle_nb_digits = [];
        };
      })
      ∷ [];
}

operations-AreAllowed_example :
    Extends
      (Allowed peers (receives (accept accept_message) "bob"))
      []
      (called peers (receives (accept accept_message) "bob") [])
operations-AreAllowed_example =
    operations-AreAllowed peers (receives (accept accept_message) "bob") []

-- Storage without contracts refuses both messages.
abbrev empty_peers : Peers
empty_peers = record peers { get_contract = λ w id. ok none }

unheld-IsRefused_example :
    ((e : Error) × (on_dlc_message empty_peers (accept accept_message) "bob" []
        ≡ (err e, get_contract (1 ∷ []) ∷ [])))
    × ((e : Error) × (on_dlc_message empty_peers (sign sign_message) "bob" []
          ≡ (err e, get_contract (2 ∷ []) ∷ [])))
unheld-IsRefused_example =
    unheld-IsRefused empty_peers [] "bob" accept_message sign_message
      (λ c a found party state. ground (arith, found))
      (λ c a found party state. ground (arith, found))

-- Signatures that do not verify.
abbrev pub doubtful : Peers
doubtful = record peers {
  verify_accepted_and_sign_contract = λ w o m. err (invalid_parameters "signature");
}

abbrev signed_trace : Trace
signed_trace =
    update_contract (signed signed_contract)
    ∷ import_address "script"
    ∷ get_network
    ∷ get_contract (1 ∷ [])
    ∷ []

accept_run :
    on_dlc_message peers (accept accept_message) "bob" []
    ≡ (ok (some (sign sign_message)), signed_trace)
unfolding on_dlc_message on_accept_message on_accept_verified get_contract_in_state ◌>>=◌ ask lift
accept_run = refl

answered_accept-IsSigned_example :
    IsSigned peers "bob" accept_message [] (some (sign sign_message)) signed_trace
answered_accept-IsSigned_example =
    answered_accept-IsSigned peers "bob" accept_message [] signed_trace (some (sign sign_message))
      accept_run
