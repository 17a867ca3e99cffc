-- ===== src/Browser/Coins/Spendable.antt =====
-- The coins that the browser wallet spends are those that it has fetched.
use mathlib.Core.List.{Memᴰ}
use mathlib.Core.List.Memᴰ
use dlc_stack.Base.{
  ℕ, String, ◌≡◌, refl, sym, ap, ◌∙◌, arith, Bool, not, Option, List, [], ◌∷◌, All, keep, map,
  Result, ok, err, map_err, map_err-ok, ok_of_bind, ok-injective, All-keep,
}
use dlc_stack.Clients.Api.{Stateful, ◌>>=◌, continue}
use dlc_stack.Manager.Types.{Error, wallet_error}
use dlc_stack.Esplora.{Explorer}
use dlc_stack.Esplora.Cache.{
  Utxo, Addresses, ChainCacheData, Site, values, get_utxos, get_balance, get_transaction,
  refresh_chain_data,
}
use dlc_stack.Esplora.Cache.Refreshed.{filled, IsUsable, refresh_chain_data-IsRefreshed}
use dlc_stack.Browser.Coins.{
  JsInterfaceWallet, LocalUtxo, WeightedUtxo, CoinSelection, weighted, candidates, selected_coin,
  unwrap_or_zero, set_utxos, get_utxos_for_amount, Account, with_coins, balance, get_wallet_balance,
}

-- Whatever is selected is one of the coins that were offered.
pub record IsSelection (coin_select : CoinSelection) : Type 0 where
  pub chosen :
      (ws : List WeightedUtxo) (fee_rate amount : ℕ) (us : List LocalUtxo)
      → coin_select ws fee_rate amount ≡ ok us
      → All (λ u. (w : WeightedUtxo) × Memᴰ w ws × (w.utxo ≡ u)) us

All-Mem : {A : Type 0} (P : A → Type 0) (x : A) (xs : List A) → All P xs → Memᴰ x xs → P x
All-Mem P x [] h m = absurd (Memᴰ.not-nil m)
All-Mem P x (y ∷ ys) (p, h) (Memᴰ.head e) = rw (e) p
All-Mem P x (y ∷ ys) (p, h) (Memᴰ.tail m) = All-Mem P x ys h m

module _ {S Response Tx : Type 0} (explorer : Explorer S Response Tx) (lib : Addresses)
    (host : String) (c : ChainCacheData Tx) where
  abbrev IsPresent : WeightedUtxo → Type 0
  IsPresent w = (tx : Tx) × (get_transaction w.utxo.outpoint.txid c ≡ ok tx)

  weighted-IsPresent :
      (address : String) (us : List Utxo)
      → All (IsUsable explorer lib host address c) us
      → All IsPresent (map weighted us)
  weighted-IsPresent address [] h = tt
  weighted-IsPresent address (u ∷ us) (p, h) = ((p.tx, p.present), weighted-IsPresent address us h)

  selected-IsUsable :
      (address : String) (ws : List WeightedUtxo) (us : List LocalUtxo)
      → All IsPresent ws
      → All (λ u. (w : WeightedUtxo) × Memᴰ w ws × (w.utxo ≡ u)) us
      → All (IsUsable explorer lib host address c) (map (selected_coin address) us)
  selected-IsUsable address ws [] present h = tt
  selected-IsUsable address ws (u ∷ us) present ((w, m, e), h) =
      let (tx, found) = All-Mem IsPresent w ws present m in
      (
        record {
          own = refl;
          free = refl;
          tx = tx;
          present = ap (λ v. get_transaction v.outpoint.txid c) (sym e) ∙ found;
        },
        selected-IsUsable address ws us present h,
      )

  spent-IsUsable :
      (coin_select : CoinSelection) (law : IsSelection coin_select) (amount : ℕ)
      (fee_rate : Option ℕ) (lock_utxos : Bool) (wallet : JsInterfaceWallet) (address : String)
      (us : List Utxo)
      → All (IsUsable explorer lib host address c) wallet.utxos
      → get_utxos_for_amount coin_select amount fee_rate lock_utxos wallet ≡ ok us
      → All (IsUsable explorer lib host wallet.address c) us
  unfolding get_utxos_for_amount candidates
  spent-IsUsable coin_select law amount fee_rate lock_utxos wallet address us usable e =
      let ws = candidates wallet.utxos in
      let chosen = coin_select ws (unwrap_or_zero fee_rate) amount in
      let (selected, found, made) =
        ok_of_bind (map_err wallet_error chosen)
          (λ selected. ok (map (selected_coin wallet.address) selected)) us e in
      let present = weighted-IsPresent address (keep (λ x. not x.reserved) wallet.utxos) (
        All-keep (IsUsable explorer lib host address c) (λ x. not x.reserved) wallet.utxos
          usable) in
      let result = selected-IsUsable wallet.address ws selected present (
        law.chosen ws (unwrap_or_zero fee_rate) amount selected
          (map_err-ok wallet_error chosen selected found)) in
      rw (sym (ok-injective (map (selected_coin wallet.address) selected) us made)) result

module _ {S Response Tx : Type 0} (explorer : Explorer S Response Tx) (lib : Addresses)
    (host : String) where
  fetched_first :
      (f : Unit {0} → Stateful (Account S Tx) String ℕ) (g : Error → String) (w : JsInterfaceWallet)
      (r : Result Error (Unit {0}) × Site S Tx) (n : ℕ) (a : Account S Tx)
      → continue (map_err g r.0) f (r.1, w) ≡ (ok n, a)
      → (site : Site S Tx) × (r ≡ (ok tt, site)) × (f tt (site, w) ≡ (ok n, a))
  fetched_first f g w (ok u, site) n a e = (site, refl, e)
  fetched_first f g w (err x, site) n a e = absurd (ground (arith, ap (λ p. p.0) e))

  then_set :
      (site : Site S Tx) (w : JsInterfaceWallet) (coins : List Utxo)
      → get_utxos site.1 ≡ ok coins
      → ((λ account. with_coins explorer lib host (get_utxos account.0.1) account) >>= λ set.
            balance explorer lib host)
          (site, w)
        ≡ (ok (values coins), (site, set_utxos coins w))
  unfolding get_balance
  then_set site w coins held = rw (held, held) refl

  -- The browser wallet, with a cache in which nothing is `None`, and with a selection that picks among
  -- the coins that it is given: once the wallet has shown its balance, this is the sum of its coins;
  -- and each coin that it then gives for an amount is at its own address, and has its transaction in
  -- the cache, where the manager looks it up.
  pub get_wallet_balance-get_utxos_for_amount :
      (address : String) (s s' : S) (old : List Utxo) (txs : String → Option Tx) (height : ℕ)
      (w w' : JsInterfaceWallet) (c : ChainCacheData Tx) (n : ℕ) (coin_select : CoinSelection)
      (amount : ℕ) (fee_rate : Option ℕ) (lock_utxos : Bool) (us : List Utxo)
      → get_wallet_balance explorer lib host address ((s, filled old txs height), w)
        ≡ (ok n, ((s', c), w'))
      → IsSelection coin_select
      → get_utxos_for_amount coin_select amount fee_rate lock_utxos w' ≡ ok us
      → (n ≡ values w'.utxos) × All (IsUsable explorer lib host w.address c) us
  unfolding get_wallet_balance set_utxos
  get_wallet_balance-get_utxos_for_amount address s s' old txs height w w' c n coin_select amount
        fee_rate lock_utxos us e law spent =
      let (site, fetched, rest) =
        fetched_first _ _ w
          (refresh_chain_data explorer lib host address (s, filled old txs height)) n ((s', c), w')
          e in
      let r =
        refresh_chain_data-IsRefreshed explorer lib host address s site.0 old txs height site.1
          fetched in
      let run = sym (then_set site w r.coins r.held) ∙ rest in
      let w-eq = ap (λ p. p.1.1) run in
      let c-eq = ap (λ p. p.1.0.1) run in
      let usable =
        spent-IsUsable explorer lib host site.1 coin_select law amount fee_rate lock_utxos
          (set_utxos r.coins w) r.parsed us r.usable
          (ap (get_utxos_for_amount coin_select amount fee_rate lock_utxos) w-eq ∙ spent) in
      (
        ok-injective n (values w'.utxos)
            (sym (ap (λ p. p.0) run) ∙ ap (λ v. ok (values v.utxos)) w-eq),
        rw (sym c-eq) usable,
      )
