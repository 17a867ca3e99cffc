-- ===== src/Esplora/Cache/Refreshed.antt =====
-- What a refresh leaves in the cache.
use dlc_stack.Base.{
  ℕ, String, ◌≡◌, refl, sym, ap, arith, false, ◌==◌, eq_refl, Bool-cases, inl, inr, map_err, Option,
  none, some, List, [], ◌∷◌, All, Result, ok, err, map_err-ok,
}
use dlc_stack.Clients.Api.{Stateful, continue, failing_as}
use dlc_stack.Manager.Types.{blockchain_error}
use dlc_stack.Esplora.{Explorer, UtxoResp, get_from_json}
use dlc_stack.Esplora.Cache.{
  ChainCacheData, Addresses, utxos_path, invalid_address, Utxo, add_tx, add_parsed, parse_utxos,
  get_utxos, get_transaction, store_utxos, store_tx, fetch_tx, fetch_txs, refresh_chain_data,
}

module _ {S E A B C : Type 0} (f : A → Stateful (S × C) E B) (b : B) (s'' : S × C) where
  remoted :
      (c : C) (r : Result E A × S)
      → continue r.0 f (r.1, c) ≡ (ok b, s'')
      → (a : A) × (s' : S) × (f a (s', c) ≡ (ok b, s''))
  remoted c (ok a, s') e = (a, s', e)
  remoted c (err x, s') e = absurd (ground (arith, ap (λ p. p.0) e))

  lifted :
      (s : S × C) (r : Result E A)
      → continue r f s ≡ (ok b, s'')
      → (a : A) × (r ≡ ok a) × (f a s ≡ (ok b, s''))
  lifted s (ok a) e = (a, refl, e)
  lifted s (err x) e = absurd (ground (arith, ap (λ p. p.0) e))

module _ {Tx : Type 0} where
  -- What a cache is from the start: nothing is `None`.
  abbrev pub filled : List Utxo → (String → Option Tx) → ℕ → ChainCacheData Tx
  filled coins txs height = record { utxos = some coins; txs = some txs; height = some height }

  abbrev IsHeld : (String → Option Tx) → String → Type 0
  IsHeld txs id = (tx : Tx) × (txs id ≡ some tx)

  add_tx-same : (id : String) (tx : Tx) (txs : String → Option Tx) → IsHeld (add_tx id tx txs) id
  add_tx-same id tx txs = rw (eq_refl id) (tx, refl)

  add_tx-keeps :
      (id : String) (tx : Tx) (txs : String → Option Tx) (other : String)
      → IsHeld txs other
      → IsHeld (add_tx id tx txs) other
  add_tx-keeps id tx txs other h = elim (Bool-cases (other == id)) [
    | inl e ↦ rw (e) (tx, refl)
    | inr e ↦ rw (e) h
  ]

module _ {S Response Tx : Type 0} (explorer : Explorer S Response Tx) (lib : Addresses)
    (host : String) where
  -- A coin of the address, free to be spent, whose transaction is at hand.
  pub record IsUsable (address : String) (c : ChainCacheData Tx) (u : Utxo) : Type 0 where
    pub own : u.address ≡ address
    pub free : u.reserved ≡ false
    pub tx : Tx
    pub present : get_transaction u.outpoint.txid c ≡ ok tx

  pub record IsRefreshed (address : String) (c : ChainCacheData Tx) : Type 0 where
    pub coins : List Utxo
    pub txs : String → Option Tx
    pub height : ℕ
    pub is_filled : c ≡ filled coins txs height
    pub held : get_utxos c ≡ ok coins
    pub parsed : String
    pub is_address : lib.parse_address address ≡ ok parsed
    pub usable : All (IsUsable parsed c) coins

  record Fetched (us held : List Utxo) (txs : String → Option Tx) (h : ℕ) (c : ChainCacheData Tx)
      : Type 0 where
    final : String → Option Tx
    is : c ≡ filled held final h
    keeps : (id : String) → IsHeld txs id → IsHeld final id
    each : All (λ u. IsHeld final u.outpoint.txid) us

  fetch_txs-Fetched :
      (us held : List Utxo) (txs : String → Option Tx) (h : ℕ) (s s' : S) (c : ChainCacheData Tx)
      → fetch_txs explorer lib host us (s, filled held txs h) ≡ (ok tt, (s', c))
      → Fetched us held txs h c
  unfolding fetch_txs store_tx
  fetch_txs-Fetched [] held txs h s s' c e = record {
    final = txs;
    is = ap (λ p. p.1.1) (sym e);
    keeps = λ id k. k;
    each = tt;
  }
  fetch_txs-Fetched (u ∷ us) held txs h s s' c e =
      let (tx, s1, e1) =
        remoted _ tt (s', c) (filled held txs h) (fetch_tx explorer lib host u.outpoint.txid s) e in
      let rest = fetch_txs-Fetched us held (add_tx u.outpoint.txid tx txs) h s1 s' c e1 in
      record {
        final = rest.final;
        is = rest.is;
        keeps = λ id k. rest.keeps id (add_tx-keeps u.outpoint.txid tx txs id k);
        each = (rest.keeps u.outpoint.txid (add_tx-same u.outpoint.txid tx txs), rest.each);
      }

  add_parsed-own :
      (address : String) (x : UtxoResp) (id : Option String) (us : List Utxo)
      → All (λ u. (u.address ≡ address) × (u.reserved ≡ false)) us
      → All (λ u. (u.address ≡ address) × (u.reserved ≡ false)) (add_parsed lib address x id us)
  add_parsed-own address x none us own = own
  add_parsed-own address x (some id) us own = ((refl, refl), own)

  parse_utxos-own :
      (address : String) (xs : List UtxoResp)
      → All (λ u. (u.address ≡ address) × (u.reserved ≡ false)) (parse_utxos lib address xs)
  unfolding parse_utxos
  parse_utxos-own address [] = tt
  parse_utxos-own address (x ∷ xs) =
      add_parsed-own address x (lib.parse_txid x.txid) (parse_utxos lib address xs)
        (parse_utxos-own address xs)

  coins-IsUsable :
      (address : String) (txs : String → Option Tx) (c : ChainCacheData Tx) (us held : List Utxo)
      (h : ℕ)
      → c ≡ filled held txs h
      → All (λ u. (u.address ≡ address) × (u.reserved ≡ false)) us
      → All (λ u. IsHeld txs u.outpoint.txid) us
      → All (IsUsable address c) us
  unfolding get_transaction
  coins-IsUsable address txs c [] held h e own found = tt
  coins-IsUsable address txs c (u ∷ us) held h e ((own, free), owns) ((tx, found), more) = (
    record { own = own; free = free; tx = tx; present = rw (e, found) refl },
    coins-IsUsable address txs c us held h e owns more,
  )

  -- The provider of the browser wallet, with a cache in which nothing is `None`, as it is from the
  -- start: when a refresh succeeds, such a cache is left; its coins belong to the address that was
  -- given, none of them is reserved, and the transaction of each is found in the cache.
  pub refresh_chain_data-IsRefreshed :
      (address : String) (s s' : S) (coins : List Utxo) (txs : String → Option Tx) (height : ℕ)
      (c : ChainCacheData Tx)
      → refresh_chain_data explorer lib host address (s, filled coins txs height) ≡ (ok tt, (s', c))
      → IsRefreshed address c
  unfolding refresh_chain_data store_utxos get_utxos
  refresh_chain_data-IsRefreshed address s s' coins txs height c e =
      let (tip, s1, e1) =
        remoted _ tt (s', c) (filled coins txs height)
          (failing_as blockchain_error explorer.get_height s) e in
      let (fetched, s2, e2) =
        remoted _ tt (s', c) (filled coins txs tip)
          (get_from_json explorer host explorer.read_utxos (utxos_path address) s1) e1 in
      let (parsed, valid, e3) =
        lifted _ tt (s', c) (s2, filled coins txs tip)
          (map_err invalid_address (lib.parse_address address)) e2 in
      let us = parse_utxos lib parsed fetched in
      let f = fetch_txs-Fetched us us txs tip s2 s' c e3 in
      record {
        coins = us;
        txs = f.final;
        height = tip;
        is_filled = f.is;
        held = ap get_utxos f.is;
        parsed = parsed;
        is_address = map_err-ok invalid_address (lib.parse_address address) parsed valid;
        usable =
            coins-IsUsable parsed f.final c us us tip f.is (parse_utxos-own parsed fetched) f.each;
      }
