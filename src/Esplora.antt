-- ===== src/Esplora.antt =====
-- esplora-async-blockchain-provider-router-wallet/src/lib.rs: the blockchain of the router wallet,
-- which asks an Esplora server over HTTP. The children are about the one of the browser wallet.
pub mod Depth
pub mod Cache
pub mod Tests
use Prim.Native.String.{◌++◌ as append}
use dlc_stack.Base.{
  ℕ, ◌+◌, ◌-◌, ◌%◌, ◌^◌, String, Bool, if◌then◌else◌, Option, none, some, List, Result, ok, map_err,
}
use dlc_stack.Clients.Codec.{Bytes}
use dlc_stack.Clients.Api.{Stateful, ◌>>=◌, lift, failing_as}
use dlc_stack.Manager.Types.{Error, blockchain_error, io_error}
use dlc_stack.Attestor.Client.{with_slash}

pub record TxStatus : Type 0 where
  pub confirmed : Bool
  pub block_height : Option ℕ

pub data UtxoStatus : Type 0 where
  confirmed_status : Bool → ℕ → String → ℕ → UtxoStatus
  unconfirmed_status : Bool → UtxoStatus

pub record UtxoResp : Type 0 where
  pub txid : String
  pub vout : ℕ
  pub value : ℕ
  pub status : UtxoStatus

-- The Esplora server, in the states `S` that the surroundings go through, and the readers of its
-- answers: `Response` is an answer before its body has come, `Tx` a transaction.
pub record Explorer (S Response Tx : Type 0) : Type 0 where
  pub send : String → Stateful S String Response
  pub read_status : Response → Result String TxStatus
  pub read_utxos : Response → Result String (List UtxoResp)
  pub read_bytes : Response → Result String Bytes
  pub get_height : Stateful S String ℕ
  pub broadcast : Tx → Stateful S String (Unit {0})
  pub consensus_decode : Bytes → Result String Tx

-- Subtraction and addition of `u64` as a release build computes them, cut to a `u32`.
abbrev pub depth : ℕ → ℕ → ℕ
depth block_chain_height block_height =
    ((block_chain_height + 2 ^ 64 - block_height) % 2 ^ 64 + 1) % 2 ^ 64 % 2 ^ 32

abbrev pub depth_in : ℕ → Option ℕ → ℕ
depth_in block_chain_height none = 0
depth_in block_chain_height (some block_height) = depth block_chain_height block_height

abbrev pub status_path : String → String
status_path tx_id = append "tx/" (append tx_id "/status")

abbrev pub raw_path : String → String
raw_path tx_id = append "tx/" (append tx_id "/raw")

module _ {S Response Tx : Type 0} (explorer : Explorer S Response Tx) (host : String) where
  unfoldable pub get : String → Stateful S Error Response
  get sub_url = failing_as io_error (explorer.send (append (with_slash host) sub_url))

  unfoldable pub get_from_json :
      {A : Type 0} → (Response → Result String A) → String → Stateful S Error A
  get_from_json read sub_url = do
    response ← get sub_url
    lift (map_err blockchain_error (read response))

  unfoldable pub get_bytes : String → Stateful S Error Bytes
  get_bytes sub_url = do
    response ← get sub_url
    lift (map_err blockchain_error (explorer.read_bytes response))

  -- `if tx_status.confirmed`, with the error of a height that does not come.
  unfoldable pub confirmations_of : (String → Error) → TxStatus → Stateful S Error ℕ
  confirmations_of height_error tx_status =
      if tx_status.confirmed
      then (do
        block_chain_height ← failing_as height_error explorer.get_height
        lift (ok (depth_in block_chain_height tx_status.block_height)))
      else lift (ok 0)

  unfoldable pub get_transaction_confirmations : String → Stateful S Error ℕ
  get_transaction_confirmations tx_id = do
    tx_status ← get_from_json explorer.read_status (status_path tx_id)
    confirmations_of blockchain_error tx_status

  unfoldable pub send_transaction : Tx → Stateful S Error (Unit {0})
  send_transaction tx = failing_as blockchain_error (explorer.broadcast tx)

  unfoldable pub get_transaction : String → Stateful S Error Tx
  get_transaction tx_id = do
    raw_tx ← get_bytes (raw_path tx_id)
    lift (map_err blockchain_error (explorer.consensus_decode raw_tx))
