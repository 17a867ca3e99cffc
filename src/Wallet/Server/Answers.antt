-- ===== src/Wallet/Server/Answers.antt =====
-- What the router wallet answers.
use dlc_stack.Base.{◌≡◌, ◌⊎◌}
use dlc_stack.Manager.Peers.{Peers}
use dlc_stack.Wallet.World.{World}
use dlc_stack.Wallet.Server.{Response}

-- The status of an answer is one of three, and of what is not found there is no effect.
abbrev pub IsAnswer : World → Response × World → Type 0
IsAnswer w (r, w') = (r.status ≡ 200) ⊎ ((r.status ≡ 400) ⊎ ((r.status ≡ 404) × (w' ≡ w)))
