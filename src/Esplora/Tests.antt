-- ===== src/Esplora/Tests.antt =====
-- A server with two coins of an address, one of them with an id that is none.
use Prim.Native.String.{String}
use dlc_stack.Base.{
  ℕ, ◌≡◌, refl, ◌≤◌, true, false, ◌==◌, if◌then◌else◌, none, some, [], ◌∷◌, ok, arith,
}
use dlc_stack.Esplora.{
  Explorer, UtxoResp, confirmed_status, unconfirmed_status, get, get_from_json, get_bytes,
  get_transaction_confirmations,
}
use dlc_stack.Esplora.Depth.{IsMined, get_transaction_confirmations-IsDepth, behind-IsConfirmed}
use dlc_stack.Esplora.Cache.{
  ChainCacheData, Addresses, parse_utxos, utxo_of, add_tx, values, get_balance, get_utxos,
  is_output_spent, store_utxos, store_tx, fetch_tx, fetch_txs, refresh_chain_data,
}
use dlc_stack.Esplora.Cache.Refreshed.{IsRefreshed, filled, refresh_chain_data-IsRefreshed}

abbrev pub coin : UtxoResp
coin = record { txid = "aa"; vout = 1; value = 5000; status = confirmed_status true 98 "b" 7 }

abbrev unreadable_coin : UtxoResp
unreadable_coin = record { txid = "?"; vout = 0; value = 3; status = unconfirmed_status false }

-- Its states are the heights of its chain.
abbrev pub node : Explorer ℕ String String
node = record {
  send = λ url tip. (ok url, tip);
  read_status = λ url. ok (record { confirmed = true; block_height = some 98 });
  read_utxos = λ url. ok (coin ∷ unreadable_coin ∷ []);
  read_bytes = λ url. ok [];
  get_height = λ tip. (ok tip, tip);
  broadcast = λ tx tip. (ok tt, tip);
  consensus_decode = λ bytes. ok "transaction";
}

abbrev pub plain : Addresses
plain = record {
  parse_txid = λ s. if s == "aa" then some s else none;
  parse_address = λ s. ok s;
  script_pubkey = λ s. s;
}

node-IsMined : (tip : ℕ) → IsMined node "host" "aa" tip tip 98
unfolding get_from_json get
node-IsMined tip = record { answered = tip; asked = tip; status = refl; height = refl }

get_transaction_confirmations-IsDepth_example :
    (get_transaction_confirmations node "host" "aa" 103).0 ≡ ok 6
get_transaction_confirmations-IsDepth_example =
    get_transaction_confirmations-IsDepth node "host" "aa" 103 103 98 (node-IsMined 103)
      (omega arith) (omega arith)

behind-IsConfirmed_example :
    (n : ℕ) × ((get_transaction_confirmations node "host" "aa" 96).0 ≡ ok n) × (6 ≤ n)
behind-IsConfirmed_example =
    behind-IsConfirmed node "host" "aa" 96 96 98 (node-IsMined 96) (omega arith) (omega arith)

abbrev pub refreshed : ChainCacheData String
refreshed =
    filled (utxo_of plain "bc1" coin "aa" ∷ []) (add_tx "aa" "transaction" (λ txid. none)) 100

pub refreshes :
    refresh_chain_data node plain "host" "bc1" (100, filled [] (λ txid. none) 0)
    ≡ (ok tt, (100, refreshed))
unfolding refresh_chain_data store_utxos store_tx fetch_txs fetch_tx get_bytes get_from_json get
    parse_utxos
refreshes = refl

refresh_chain_data-IsRefreshed_example : IsRefreshed node plain "host" "bc1" refreshed
refresh_chain_data-IsRefreshed_example =
    refresh_chain_data-IsRefreshed node plain "host" "bc1" 100 100 [] (λ txid. none) 0 refreshed
      refreshes

balance_of_refreshed : get_balance refreshed ≡ ok 5000
unfolding get_balance get_utxos values
balance_of_refreshed = refl

-- The coin is there to be spent.
unspent_output : is_output_spent "aa" 1 refreshed ≡ ok true
unfolding is_output_spent get_utxos
unspent_output = refl

other_output : is_output_spent "bb" 1 refreshed ≡ ok false
unfolding is_output_spent get_utxos
other_output = refl
