-- ===== src/Wallet/Notices/Told.antt =====
-- What a periodic check tells of a contract that the manager reports.
use mathlib.Core.Option.{some-injective}
use mathlib.Core.Path.{subst}
use dlc_stack.Base.{
  ◌⊎◌, inl, inr, String, ◌≡◌, refl, sym, ap, ◌∙◌, arith, Option, none, some, List, [], ◌∷◌, ◌++◌,
  map, Result, ok, err,
}
use dlc_stack.Manager.Types.{
  ContractId, Contract, offered, accepted, signed, confirmed, refunded, pre_closed, closed,
  failed_accept, failed_sign, rejected,
}
use dlc_stack.Manager.Peers.{Peers}
use dlc_stack.Manager.Types.{Error}
use dlc_stack.Manager.Monad.{Trace, get_contract, ask}
use dlc_stack.Manager.Checks as Checks
use dlc_stack.Manager.Checks.{Affected}
use dlc_stack.Clients.Api.{continue}
use dlc_stack.Wallet.World.{managed, World, Net, Request, set_status_funded, post_close_dlc}
use dlc_stack.Wallet.Attestors.{get_chain_from_attestors}
use dlc_stack.Wallet.Notices.{
  or_empty, collect, News, noted, notify, notify_all, checked, periodic_check, oracles_of,
}
use dlc_stack.Wallet.Notices.Sent.{told, notices, IsReachable, notify_all-sends, notices-get_chain}

-- A place in a list.
abbrev pub Occurs : {A : Type 0} → A → List A → Type 0
Occurs a [] = ⊥
Occurs a (x ∷ xs) = (a ≡ x) ⊎ Occurs a xs

module _ {A : Type 0} (a : A) where
  Occurs-append_left : (xs ys : List A) → Occurs a xs → Occurs a (xs ++ ys)
  Occurs-append_left [] ys o = absurd o
  Occurs-append_left (x ∷ xs) ys (inl e) = inl e
  Occurs-append_left (x ∷ xs) ys (inr o) = inr (Occurs-append_left xs ys o)

  Occurs-append_right : (xs ys : List A) → Occurs a ys → Occurs a (xs ++ ys)
  Occurs-append_right [] ys o = o
  Occurs-append_right (x ∷ xs) ys o = inr (Occurs-append_right xs ys o)

Occurs-map :
    {A B : Type 0} (f : A → B) (a : A) (xs : List A) → Occurs a xs → Occurs (f a) (map f xs)
Occurs-map f a [] o = absurd o
Occurs-map f a (x ∷ xs) (inl e) = inl (ap f e)
Occurs-map f a (x ∷ xs) (inr o) = inr (Occurs-map f a xs o)

-- What is told of a contract in this state.
abbrev pub notice_of : String → (String → String) → Contract → Option Request
notice_of uuid chain_of (confirmed c) =
    some (told set_status_funded chain_of (uuid, c.accepted_contract.dlc_transactions.fund.txid))
notice_of uuid chain_of (pre_closed c) =
    some (told post_close_dlc chain_of (uuid, c.signed_cet.txid))
notice_of uuid chain_of (accepted c) = none
notice_of uuid chain_of _ = none

-- What is told of the news.
abbrev pub told_of : (String → String) → News → List Request
told_of chain_of news =
    map (told set_status_funded chain_of) news.confirmed
    ++ map (told post_close_dlc chain_of) news.closed

module _ (chain_of : String → String) (uuid : String) (r : Request) where
  noted-Occurs :
      (contract : Contract) (news : News)
      → notice_of uuid chain_of contract ≡ some r
      → Occurs r (told_of chain_of (noted uuid (ok (some contract)) news))
  noted-Occurs (confirmed c) news e = inl (sym (some-injective _ _ e))
  noted-Occurs (pre_closed c) news e =
      Occurs-append_right r (map (told set_status_funded chain_of) news.confirmed) _
        (inl (sym (some-injective _ _ e)))
  noted-Occurs (accepted c) news e = absurd (ground (arith, e))
  noted-Occurs (offered c) news e = absurd (ground (arith, e))
  noted-Occurs (signed c) news e = absurd (ground (arith, e))
  noted-Occurs (refunded c) news e = absurd (ground (arith, e))
  noted-Occurs (closed c) news e = absurd (ground (arith, e))
  noted-Occurs (failed_accept c) news e = absurd (ground (arith, e))
  noted-Occurs (failed_sign c) news e = absurd (ground (arith, e))
  noted-Occurs (rejected c) news e = absurd (ground (arith, e))

Occurs-insert :
    {A : Type 0} (a y : A) (xs ys : List A) → Occurs a (xs ++ ys) → Occurs a (xs ++ y ∷ ys)
Occurs-insert a y [] ys o = inr o
Occurs-insert a y (x ∷ xs) ys (inl e) = inl e
Occurs-insert a y (x ∷ xs) ys (inr o) = inr (Occurs-insert a y xs ys o)

module _ (chain_of : String → String) (uuid : String) (r : Request) (news : News) where
  kept-Occurs :
      (found : Result Error (Option Contract))
      → Occurs r (told_of chain_of news)
      → Occurs r (told_of chain_of (noted uuid found news))
  kept-Occurs (err e) o = o
  kept-Occurs (ok none) o = o
  kept-Occurs (ok (some (confirmed c))) o = inr o
  kept-Occurs (ok (some (pre_closed c))) o =
      Occurs-insert r _ (map (told set_status_funded chain_of) news.confirmed) _ o
  kept-Occurs (ok (some (accepted c))) o = o
  kept-Occurs (ok (some (offered c))) o = o
  kept-Occurs (ok (some (signed c))) o = o
  kept-Occurs (ok (some (refunded c))) o = o
  kept-Occurs (ok (some (closed c))) o = o
  kept-Occurs (ok (some (failed_accept c))) o = o
  kept-Occurs (ok (some (failed_sign c))) o = o
  kept-Occurs (ok (some (rejected c))) o = o

module _ (env : Peers) where
  notices-collect : (us : Affected) (w : World) → notices (collect env us w).1 ≡ notices w
  unfolding collect
  notices-collect [] w = refl
  notices-collect (u ∷ us) w =
      notices-collect us (managed (ask (get_contract u.0) (λ t. env.get_contract t u.0)) w).1

  collect-Occurs :
      (chain_of : String → String) (id : ContractId) (uuid : String) (contract : Contract)
      (r : Request) (us : Affected) (w : World)
      → Occurs (id, uuid) us
      → ((t : Trace) → env.get_contract t id ≡ ok (some contract))
      → notice_of uuid chain_of contract ≡ some r
      → Occurs r (told_of chain_of (collect env us w).0)
  unfolding collect ask
  collect-Occurs chain_of id uuid contract r [] w o stored e = absurd o
  collect-Occurs chain_of id uuid contract r (u ∷ us) w (inl same) stored e =
      rw (sym same, stored) (noted-Occurs chain_of uuid r contract _ e)
  collect-Occurs chain_of id uuid contract r (u ∷ us) w (inr o) stored e =
      kept-Occurs chain_of u.1 r _ _ (collect-Occurs chain_of id uuid contract r us _ o stored e)

notices-checked : (env : Peers) (w : World) → notices (checked env w).1 ≡ notices w
unfolding checked
notices-checked env w = notices-collect env _ (managed (Checks.periodic_check env) w).1

module _ (env : Peers) (net : Net) (attestors : List String) (w : World) where
  pub periodic_check-known :
      env.oracles ≡ some attestors
      → periodic_check env net w ≡ notify_all net attestors (checked env w).0 (checked env w).1
  unfolding periodic_check
  periodic_check-known known =
      ap
        (λ o.
          continue (oracles_of o)
            (λ keys v. notify_all net keys (checked env v).0 (checked env v).1) w)
        known

  periodic_check-reported :
      (updated : Affected)
      → env.oracles ≡ some attestors
      → (Checks.periodic_check env w.trace).0 ≡ ok updated
      → let (news, w') = collect env updated (managed (Checks.periodic_check env) w).1 in
        periodic_check env net w ≡ notify_all net attestors news w'
  unfolding checked
  periodic_check-reported updated known reported =
      periodic_check-known known
      ∙ ap
          (λ r.
            let (news, w') = collect env (or_empty r) (managed (Checks.periodic_check env) w).1 in
            notify_all net attestors news w')
          reported

-- When the manager's check reports a contract, which the store gives as confirmed or as closed by a
-- broadcast transaction, and the attestors agree on chains and the blockchain interface answers: the
-- check succeeds, and its requests hold the notice of the contract, of its funding or closing
-- transaction, on the chain of its event.
pub periodic_check-tells :
    (env : Peers) (net : Net) (attestors : List String) (chain_of : String → String) (w : World)
    (updated : Affected) (id : ContractId) (uuid : String) (contract : Contract) (r : Request)
    → env.oracles ≡ some attestors
    → IsReachable net attestors chain_of
    → (Checks.periodic_check env w.trace).0 ≡ ok updated
    → Occurs (id, uuid) updated
    → ((t : Trace) → env.get_contract t id ≡ ok (some contract))
    → notice_of uuid chain_of contract ≡ some r
    → ((periodic_check env net w).0 ≡ ok "Success running periodic check")
      × Occurs r (notices (periodic_check env net w).1)
periodic_check-tells env net attestors chain_of w updated id uuid contract r known reachable
      reported o stored e =
    let w' = (managed (Checks.periodic_check env) w).1 in
    let news = (collect env updated w').0 in
    let (done, sent) =
      notify_all-sends net attestors chain_of news (collect env updated w').1 reachable in
    let run = periodic_check-reported env net attestors w updated known reported in
    (
      ap (λ x. x.0) run ∙ done,
      subst (Occurs r) (sym (ap (λ x. notices x.1) run ∙ sent)) (
          Occurs-append_right r (notices (collect env updated w').1) (told_of chain_of news)
            (collect-Occurs env chain_of id uuid contract r updated w' o stored e)),
    )

-- When the manager has attestors, and those do not agree on the chain of the first contract that has
-- become funded, the check fails with this error, and no notice is sent of any contract.
pub periodic_check-silent :
    (env : Peers) (net : Net) (attestors : List String) (w : World) (x : String × String)
    (rest : List (String × String)) (e : String)
    → env.oracles ≡ some attestors
    → (checked env w).0.confirmed ≡ x ∷ rest
    → (get_chain_from_attestors net attestors x.0 (checked env w).1).0 ≡ err e
    → ((periodic_check env net w).0 ≡ err e) × (notices (periodic_check env net w).1 ≡ notices w)
unfolding notify_all notify
periodic_check-silent env net attestors w x rest e known first_news disagree =
    let run = periodic_check-known env net attestors w known in
    let asked = notices-get_chain net attestors x.0 (checked env w).1 in
    rw (run, first_news, disagree) (refl, asked ∙ notices-checked env w)
