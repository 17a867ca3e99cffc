-- ===== src/Esplora/Depth.antt =====
-- How many confirmations the providers count.
use dlc_stack.Base.{ℕ, ◌+◌, ◌-◌, ◌≤◌, ◌<◌, String, ◌≡◌, refl, ap, ◌∙◌, arith, true, some, ok}
use dlc_stack.Esplora.{
  Explorer, depth, status_path, get_from_json, confirmations_of, get_transaction_confirmations,
}

depth_of_le : (tip h : ℕ) → h ≤ tip → tip < 4294967295 → depth tip h ≡ tip - h + 1
depth_of_le tip h le lt = omega arith

depth_of_behind : (tip h : ℕ) → tip + 1 < h → h < 4294967295 → depth tip h ≡ tip + 4294967297 - h
depth_of_behind tip h le lt = omega arith

module _ {S Response Tx : Type 0} (explorer : Explorer S Response Tx) (host : String) where
  -- The server says that the transaction is in the block `h`, and then that its chain has the height
  -- `tip`.
  pub record IsMined (tx_id : String) (s : S) (tip h : ℕ) : Type 0 where
    pub answered : S
    pub asked : S
    pub status :
        get_from_json explorer host explorer.read_status (status_path tx_id) s
        ≡ (ok (record { confirmed = true; block_height = some h }), answered)
    pub height : explorer.get_height answered ≡ (ok tip, asked)

  confirmations_of_IsMined :
      (tx_id : String) (s : S) (tip h : ℕ) (m : IsMined tx_id s tip h)
      → get_transaction_confirmations explorer host tx_id s ≡ (ok (depth tip h), m.asked)
  unfolding get_transaction_confirmations confirmations_of
  confirmations_of_IsMined tx_id s tip h m = rw (m.status, m.height) refl

  -- A transaction in a block of the chain that the server knows, of fewer than 2^32 - 1 blocks, has
  -- one confirmation for its block and one for every later block.
  pub get_transaction_confirmations-IsDepth :
      (tx_id : String) (s : S) (tip h : ℕ)
      → IsMined tx_id s tip h
      → h ≤ tip
      → tip < 4294967295
      → (get_transaction_confirmations explorer host tx_id s).0 ≡ ok (tip - h + 1)
  get_transaction_confirmations-IsDepth tx_id s tip h m le lt =
      ap (λ r. r.0) (confirmations_of_IsMined tx_id s tip h m) ∙ ap ok (depth_of_le tip h le lt)

  -- When the height that the server then names is two or more below the block, the subtraction goes
  -- under 0: a server that is less than 2^32 - 6 blocks behind gives six confirmations or more.
  pub behind-IsConfirmed :
      (tx_id : String) (s : S) (tip h : ℕ)
      → IsMined tx_id s tip h
      → tip + 1 < h
      → h < 4294967290
      → (n : ℕ) × ((get_transaction_confirmations explorer host tx_id s).0 ≡ ok n) × (6 ≤ n)
  behind-IsConfirmed tx_id s tip h m lt bound = (
    tip + 4294967297 - h,
    ap (λ r. r.0) (confirmations_of_IsMined tx_id s tip h m)
        ∙ ap ok (depth_of_behind tip h lt (omega arith)),
    omega arith,
  )
