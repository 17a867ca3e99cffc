-- ===== src/Browser/Coins.antt =====
-- js-interface-wallet/src/lib.rs, the coins that the browser wallet may spend, and
-- `get_wallet_balance` of wasm-wallet/src/lib.rs, which fetches them.
pub mod Spendable
mod Tests
use dlc_stack.Base.{
  ℕ, String, Bool, true, false, not, Option, none, some, List, [], ◌∷◌, keep, map, Result, ok, err,
  map_err, ◌>>=◌ as and_then,
}
use dlc_stack.Clients.Api.{Stateful, ◌>>=◌, lift, failing_as}
use dlc_stack.Manager.Types.{Error, wallet_error}
use dlc_stack.Esplora.{Explorer}
use dlc_stack.Esplora.Cache.{
  OutPoint, TxOut, Utxo, Addresses, ChainCacheData, Site, get_utxos, get_balance,
  refresh_chain_data,
}

-- The keys are left out.
pub record JsInterfaceWallet : Type 0 where
  pub address : String
  pub utxos : List Utxo

pub data KeychainKind : Type 0 where
  external internal : KeychainKind

pub record LocalUtxo : Type 0 where
  pub outpoint : OutPoint
  pub txout : TxOut
  pub keychain : KeychainKind
  pub is_spent : Bool

pub record WeightedUtxo : Type 0 where
  pub utxo : LocalUtxo
  pub satisfaction_weight : ℕ

-- `coin_select` of the crate bdk: the optional coins, the fee rate, and the amount.
abbrev pub CoinSelection : Type 0
CoinSelection = List WeightedUtxo → ℕ → ℕ → Result String (List LocalUtxo)

unfoldable pub set_utxos : List Utxo → JsInterfaceWallet → JsInterfaceWallet
set_utxos utxos wallet = record { address = wallet.address; utxos = utxos }

abbrev pub unwrap_or_zero : Option ℕ → ℕ
unwrap_or_zero none = 0
unwrap_or_zero (some n) = n

abbrev pub weighted : Utxo → WeightedUtxo
weighted x = record {
  utxo = record { outpoint = x.outpoint; txout = x.tx_out; keychain = external; is_spent = false };
  satisfaction_weight = 107;
}

-- The coins that are not reserved.
unfoldable pub candidates : List Utxo → List WeightedUtxo
candidates org_utxos = map weighted (keep (λ x. not x.reserved) org_utxos)

abbrev pub selected_coin : String → LocalUtxo → Utxo
selected_coin address utxo = record {
  tx_out = utxo.txout;
  outpoint = utxo.outpoint;
  address = address;
  redeem_script = "";
  reserved = false;
}

unfoldable pub get_utxos_for_amount :
    CoinSelection → ℕ → Option ℕ → Bool → JsInterfaceWallet → Result Error (List Utxo)
get_utxos_for_amount coin_select amount fee_rate lock_utxos wallet =
    and_then
      (map_err wallet_error
        (coin_select (candidates wallet.utxos) (unwrap_or_zero fee_rate) amount))
      λ selected. ok (map (selected_coin wallet.address) selected)

-- The surroundings with the cache of the chain, and the wallet.
abbrev pub Account : Type 0 → Type 0 → Type 0
Account S Tx = Site S Tx × JsInterfaceWallet

module _ {S Response Tx : Type 0} (explorer : Explorer S Response Tx) (lib : Addresses)
    (host : String) where
  abbrev pub refreshed : String → Stateful (Account S Tx) String (Unit {0})
  refreshed address (site, wallet) =
      let (r, site') =
        failing_as
          (λ e. "Failed to communicate with the Bitcoin blockchain. Please try again later!")
          (refresh_chain_data explorer lib host address) site in
      (r, (site', wallet))

  abbrev pub with_coins : Result Error (List Utxo) → Stateful (Account S Tx) String (Unit {0})
  with_coins (err e) account = (err "Failed to set UTXOs. Please try again later!", account)
  with_coins (ok utxos) (site, wallet) = (ok tt, (site, set_utxos utxos wallet))

  abbrev pub balance : Stateful (Account S Tx) String ℕ
  balance (site, wallet) = (
    map_err (λ e. "Failed to retrieve the Bitcoin balance. Please try again later!")
        (get_balance site.1),
    (site, wallet),
  )

  unfoldable pub get_wallet_balance : String → Stateful (Account S Tx) String ℕ
  get_wallet_balance address = do
    fetched ← refreshed address
    set ← (λ account. with_coins (get_utxos account.0.1) account)
    balance
