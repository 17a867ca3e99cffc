-- ===== src/Wallet/Notices.antt =====
-- `periodic_check` of wallet/src/main.rs: the manager checks its contracts, and the blockchain
-- interface is told of those that have become funded or closed.
pub mod Sent
pub mod Told
use dlc_stack.Base.{String, Option, none, some, List, [], ◌∷◌, Result, ok, err}
use dlc_stack.Manager.Types.{ContractId, Error, Contract, accepted, confirmed, pre_closed}
use dlc_stack.Manager.Monad.{get_contract, ask}
use dlc_stack.Manager.Peers.{Peers}
use dlc_stack.Manager.Checks as Checks
use dlc_stack.Manager.Checks.{Affected}
use dlc_stack.Clients.Api.{Stateful, ◌>>=◌, lift}
use dlc_stack.Wallet.World.{
  World, Net, Notice, Request, set_status_funded, post_close_dlc, requested, managed,
}
use dlc_stack.Wallet.Attestors.{get_chain_from_attestors}

-- `newly_confirmed_uuids` and `newly_closed_uuids`.
pub record News : Type 0 where
  pub confirmed : List (String × String)
  pub closed : List (String × String)

-- The contract that the store gave, noted in front of the later ones.
abbrev pub noted : String → Result Error (Option Contract) → News → News
noted uuid (ok (some (confirmed c))) news = record news {
  confirmed = (uuid, c.accepted_contract.dlc_transactions.fund.txid) ∷ news.confirmed;
}
noted uuid (ok (some (pre_closed c))) news = record news {
  closed = (uuid, c.signed_cet.txid) ∷ news.closed;
}
noted uuid (ok (some (accepted c))) news = news
noted uuid (ok (some _)) news = news
noted uuid (ok none) news = news
noted uuid (err e) news = news

-- An error is logged.
abbrev pub or_empty : Result Error Affected → Affected
or_empty (ok updated) = updated
or_empty (err e) = []

abbrev pub oracles_of : Option (List String) → Result String (List String)
oracles_of none = err "No attestors from manager"
oracles_of (some oracles) = ok oracles

module _ (env : Peers) where
  unfoldable pub collect : Affected → World → News × World
  collect [] w = (record { confirmed = []; closed = [] }, w)
  collect (updated ∷ rest) w =
      let (r, w') = managed (ask (get_contract updated.0) (λ t. env.get_contract t updated.0)) w in
      let (news, w'') = collect rest w' in (noted updated.1 r news, w'')

  unfoldable pub checked : World → News × World
  checked w = let (r, w') = managed (Checks.periodic_check env) w in collect (or_empty r) w'

module _ (net : Net) where
  -- The status of the answer is not looked at.
  abbrev pub post : Request → Stateful World String (Unit {0})
  post r w = (elim (net.post w r) [ ok status ↦ ok tt | err e ↦ err e ], requested r w)

  unfoldable pub notify :
      (Notice → Request) → List String → List (String × String) → Stateful World String (Unit {0})
  notify kind attestors [] = lift (ok tt)
  notify kind attestors (x ∷ rest) = do
    chain ← get_chain_from_attestors net attestors x.0
    sent ← post (kind (record { uuid = x.0; btc_tx_id = x.1; chain = chain }))
    notify kind attestors rest

  unfoldable pub notify_all : List String → News → Stateful World String String
  notify_all attestors news = do
    funded ← notify set_status_funded attestors news.confirmed
    closed ← notify post_close_dlc attestors news.closed
    lift (ok "Success running periodic check")

unfoldable pub periodic_check : Peers → Net → Stateful World String String
periodic_check env net = do
  attestors ← lift (oracles_of env.oracles)
  (λ w. let (news, w') = checked env w in notify_all net attestors news w')
