-- ===== src/Browser/Coins/Tests.antt =====
-- A wallet with one coin, and a selection that takes all that it is given.
use mathlib.Core.List.{Memᴰ}
use dlc_stack.Base.{◌≡◌, refl, sym, ok-injective, false, none, List, [], ◌∷◌, All, ok}
use dlc_stack.Esplora.{get, get_from_json, get_bytes}
use dlc_stack.Esplora.Cache.{
  utxo_of, values, parse_utxos, get_utxos, get_balance, store_utxos, store_tx, fetch_tx, fetch_txs,
  refresh_chain_data,
}
use dlc_stack.Esplora.Cache.Refreshed.{filled, IsUsable}
use dlc_stack.Esplora.Tests.{node, plain, coin, refreshed}
use dlc_stack.Browser.Coins.{
  JsInterfaceWallet, WeightedUtxo, LocalUtxo, CoinSelection, set_utxos, candidates,
  get_utxos_for_amount, get_wallet_balance,
}
use dlc_stack.Browser.Coins.Spendable.{IsSelection, get_wallet_balance-get_utxos_for_amount}

abbrev all_of : List WeightedUtxo → List LocalUtxo
all_of [] = []
all_of (w ∷ ws) = w.utxo ∷ all_of ws

abbrev take_all : CoinSelection
take_all ws fee_rate amount = ok (all_of ws)

All-all_of :
    (ws vs : List WeightedUtxo)
    → ((w : WeightedUtxo) → Memᴰ w ws → Memᴰ w vs)
    → All (λ u. (w : WeightedUtxo) × Memᴰ w vs × (w.utxo ≡ u)) (all_of ws)
All-all_of [] vs into = tt
All-all_of (w ∷ ws) vs into =
    ((w, into w (Memᴰ.head refl), refl), All-all_of ws vs (λ x m. into x (Memᴰ.tail m)))

take_all-IsSelection : IsSelection take_all
take_all-IsSelection = record {
  chosen = λ ws fee_rate amount us e.
      rw (sym (ok-injective (all_of ws) us e)) (All-all_of ws ws (λ w m. m));
}

abbrev empty_wallet : JsInterfaceWallet
empty_wallet = record { address = "bc1"; utxos = [] }

abbrev wallet_of_one : JsInterfaceWallet
wallet_of_one = record { address = "bc1"; utxos = utxo_of plain "bc1" coin "aa" ∷ [] }

balance_shown :
    get_wallet_balance node plain "host" "bc1" ((100, filled [] (λ txid. none) 0), empty_wallet)
    ≡ (ok 5000, ((100, refreshed), wallet_of_one))
unfolding get_wallet_balance refresh_chain_data store_utxos store_tx fetch_txs fetch_tx get_bytes
    get_from_json get parse_utxos set_utxos get_utxos get_balance values
balance_shown = refl

coin_given :
    get_utxos_for_amount take_all 1000 none false wallet_of_one
    ≡ ok (utxo_of plain "bc1" coin "aa" ∷ [])
unfolding get_utxos_for_amount candidates
coin_given = refl

get_wallet_balance-get_utxos_for_amount_example :
    (5000 ≡ values wallet_of_one.utxos)
    × All (IsUsable node plain "host" "bc1" refreshed) (utxo_of plain "bc1" coin "aa" ∷ [])
get_wallet_balance-get_utxos_for_amount_example =
    get_wallet_balance-get_utxos_for_amount node plain "host" "bc1" 100 100 [] (λ txid. none) 0
      empty_wallet wallet_of_one refreshed 5000 take_all 1000 none false
      (utxo_of plain "bc1" coin "aa" ∷ []) balance_shown take_all-IsSelection coin_given
