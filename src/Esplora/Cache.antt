-- ===== src/Esplora/Cache.antt =====
-- esplora-async-blockchain-provider-js-wallet/src/lib.rs: the blockchain of the browser wallet, which
-- keeps the coins of one address and their transactions. Its requests over HTTP are made by the same
-- code as those of the router wallet's.
pub mod Refreshed
use Prim.Native.String.{◌++◌ as append}
use dlc_stack.Base.{
  ℕ, ◌+◌, ◌%◌, ◌^◌, String, Bool, true, false, ◌==◌, nat_eq, if◌then◌else◌, Option, none, some,
  List, [], ◌∷◌, find, Result, ok, err, map_err, ◌>>=◌ as and_then,
}
use dlc_stack.Clients.Api.{Stateful, ◌>>=◌, lift, failing_as}
use dlc_stack.Manager.Types.{Error, blockchain_error, oracle_error}
use dlc_stack.Esplora.{
  Explorer, UtxoResp, status_path, raw_path, get_from_json, get_bytes, confirmations_of,
}

pub record OutPoint : Type 0 where
  pub txid : String
  pub vout : ℕ

pub record TxOut : Type 0 where
  pub value : ℕ
  pub script_pubkey : String

pub record Utxo : Type 0 where
  pub tx_out : TxOut
  pub outpoint : OutPoint
  pub address : String
  pub redeem_script : String
  pub reserved : Bool

-- The transactions by their ids.
pub record ChainCacheData (Tx : Type 0) : Type 0 where
  pub utxos : Option (List Utxo)
  pub txs : Option (String → Option Tx)
  pub height : Option ℕ

-- The parsers of ids and addresses, each to the text that its value is written as, and the script
-- of an address.
pub record Addresses : Type 0 where
  pub parse_txid : String → Option String
  pub parse_address : String → Result String String
  pub script_pubkey : String → String

abbrev pub add_tx : {Tx : Type 0} → String → Tx → (String → Option Tx) → String → Option Tx
add_tx txid tx txs other = if other == txid then some tx else txs other

abbrev pub utxo_of : Addresses → String → UtxoResp → String → Utxo
utxo_of lib address x id = record {
  tx_out = record { value = x.value; script_pubkey = lib.script_pubkey address };
  outpoint = record { txid = id; vout = x.vout };
  address = address;
  redeem_script = "";
  reserved = false;
}

abbrev pub add_parsed : Addresses → String → UtxoResp → Option String → List Utxo → List Utxo
add_parsed lib address x none rest = rest
add_parsed lib address x (some id) rest = utxo_of lib address x id ∷ rest

-- `filter_map(Result::ok)`: an id that is none is left out.
unfoldable pub parse_utxos : Addresses → String → List UtxoResp → List Utxo
parse_utxos lib address [] = []
parse_utxos lib address (x ∷ xs) =
    add_parsed lib address x (lib.parse_txid x.txid) (parse_utxos lib address xs)

abbrev pub utxos_path : String → String
utxos_path address = append "address/" (append address "/utxo")

abbrev pub invalid_address : String → Error
invalid_address e = blockchain_error (append "Invalid Address format: " e)

-- The sum of `u64` as a release build computes it.
unfoldable pub values : List Utxo → ℕ
values [] = 0
values (x ∷ xs) = (x.tx_out.value + values xs) % 2 ^ 64

abbrev same_vout : ℕ → Option Utxo → Bool
same_vout vout none = false
same_vout vout (some utxo) = nat_eq utxo.outpoint.vout vout

module _ {Tx : Type 0} where
  abbrev pub new : ChainCacheData Tx
  new = record { utxos = some []; txs = some (λ txid. none); height = some 0 }

  unfoldable pub get_utxos : ChainCacheData Tx → Result Error (List Utxo)
  get_utxos cdata = elim cdata.utxos [
    | none ↦ err (blockchain_error "Unable to borrow the txs of the chain_data mutably")
    | some utxos ↦ ok utxos
  ]

  unfoldable pub get_balance : ChainCacheData Tx → Result Error ℕ
  get_balance cdata = and_then (get_utxos cdata) λ utxos. ok (values utxos)

  abbrev pub or_not_found : String → Option Tx → Result Error Tx
  or_not_found tx_id none = err (blockchain_error (append "tx not found " tx_id))
  or_not_found tx_id (some tx) = ok tx

  unfoldable pub get_transaction : String → ChainCacheData Tx → Result Error Tx
  get_transaction tx_id cdata = elim cdata.txs [
    | none ↦ err (blockchain_error "Unable to borrow the txs of the chain_data")
    | some txs ↦ or_not_found tx_id (txs tx_id)
  ]

  unfoldable pub is_output_spent : String → ℕ → ChainCacheData Tx → Result Error Bool
  is_output_spent txid vout cdata =
      and_then (get_utxos cdata)
        λ utxos. ok (same_vout vout (find (λ utxo. utxo.outpoint.txid == txid) utxos))

  abbrev pub set_height : ℕ → ChainCacheData Tx → ChainCacheData Tx
  set_height height cdata = record { utxos = cdata.utxos; txs = cdata.txs; height = some height }

  unfoldable pub store_utxos :
      List Utxo → ChainCacheData Tx → Result Error (Unit {0}) × ChainCacheData Tx
  store_utxos new_utxos cdata = elim cdata.utxos [
    | none ↦ (err (blockchain_error "error getting chain_data utxos as a mut reference"), cdata)
    | some utxos ↦
        (ok tt, record { utxos = some new_utxos; txs = cdata.txs; height = cdata.height })
  ]

  unfoldable pub store_tx :
      String → Tx → ChainCacheData Tx → Result Error (Unit {0}) × ChainCacheData Tx
  store_tx txid tx cdata = elim cdata.txs [
    | none ↦ (err (blockchain_error "Unable to borrow the txs of the chain_data mutably"), cdata)
    | some txs ↦ (
      ok tt,
      record { utxos = cdata.utxos; txs = some (add_tx txid tx txs); height = cdata.height },
    )
  ]

-- The surroundings, and what the provider keeps.
abbrev pub Site : Type 0 → Type 0 → Type 0
Site S Tx = S × ChainCacheData Tx

module _ {S Tx A : Type 0} where
  abbrev pub remote : Stateful S Error A → Stateful (Site S Tx) Error A
  remote m (s, cdata) = let (r, s') = m s in (r, (s', cdata))

  abbrev pub local :
      (ChainCacheData Tx → Result Error A × ChainCacheData Tx) → Stateful (Site S Tx) Error A
  local m (s, cdata) = let (r, cdata') = m cdata in (r, (s, cdata'))

module _ {S Response Tx : Type 0} (explorer : Explorer S Response Tx) (lib : Addresses)
    (host : String) where
  unfoldable pub fetch_tx : String → Stateful S Error Tx
  fetch_tx txid = do
    raw_tx ← get_bytes explorer host (raw_path txid)
    lift (map_err blockchain_error (explorer.consensus_decode raw_tx))

  unfoldable pub fetch_txs : List Utxo → Stateful (Site S Tx) Error (Unit {0})
  fetch_txs [] = lift (ok tt)
  fetch_txs (utxo ∷ rest) = do
    tx ← remote (fetch_tx utxo.outpoint.txid)
    stored ← local (store_tx utxo.outpoint.txid tx)
    fetch_txs rest

  unfoldable pub refresh_chain_data : String → Stateful (Site S Tx) Error (Unit {0})
  refresh_chain_data address = do
    height ← remote (failing_as blockchain_error explorer.get_height)
    set ← local (λ cdata. (ok tt, set_height height cdata))
    fetched_utxos ← remote (get_from_json explorer host explorer.read_utxos (utxos_path address))
    parsed ← lift (map_err invalid_address (lib.parse_address address))
    cleared ← local (store_utxos (parse_utxos lib parsed fetched_utxos))
    fetch_txs (parse_utxos lib parsed fetched_utxos)

  unfoldable pub get_transaction_confirmations : String → Stateful S Error ℕ
  get_transaction_confirmations tx_id = do
    tx_status ← get_from_json explorer host explorer.read_status (status_path tx_id)
    confirmations_of explorer host
        (λ e. blockchain_error (append "Error getting blockchain height: " e)) tx_status

  unfoldable pub send_transaction : Tx → Stateful S Error (Unit {0})
  send_transaction tx = failing_as oracle_error (explorer.broadcast tx)
