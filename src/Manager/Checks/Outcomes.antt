-- ===== src/Manager/Checks/Outcomes.antt =====
-- When a periodic check returns, and which contracts it has checked by then.
use dlc_stack.Base.{◌≡◌, refl, List, [], ◌∷◌, ◌++◌, ok, All}
use dlc_stack.Manager.Types.{SignedContract, PreClosedContract}
use dlc_stack.Manager.Monad.{
  Trace, get_signed_contracts, get_confirmed_contracts, get_preclosed_contracts, same, more, ask,
  ◌>>=◌,
}
use dlc_stack.Manager.Peers.{Peers}
use dlc_stack.Manager.Checks.{
  Affected, check_signed, check_signed_contract, check_signed_contracts, check_confirmed,
  check_confirmed_contracts, check_preclosed, check_preclosed_contract, check_preclosed_contracts,
  periodic_check,
}
use dlc_stack.Manager.Checks.Justified.{reads_signed, reads_confirmed, reads_preclosed}
use dlc_stack.Manager.Checks.Loops.{
  SignedHasEvent, Ran, Ran-earlier, ConfirmedRan, ConfirmedRan-earlier, All-weaken,
  check_signed-All, check_confirmed-All, check_preclosed-All,
}

-- Storage lists its contracts, each of which has an event.
pub record Lists (env : Peers) : Type 0 where
  pub lists_signed :
      (w : Trace)
      → (cs : List SignedContract) × (env.get_signed_contracts w ≡ ok cs) × All SignedHasEvent cs
  pub lists_confirmed :
      (w : Trace)
      → (cs : List SignedContract) × (env.get_confirmed_contracts w ≡ ok cs) × All SignedHasEvent cs
  pub lists_preclosed :
      (w : Trace)
      → (cs : List PreClosedContract) × (env.get_preclosed_contracts w ≡ ok cs)
        × All (λ p. SignedHasEvent p.signed_contract) cs

module _ (env : Peers) where
  -- The contracts that storage lists at the beginning of a round have been checked at its end.
  abbrev pub SignedRound : Trace → Trace → Type 0
  SignedRound u v =
      (cs : List SignedContract) × (env.get_signed_contracts u ≡ ok cs)
      × All (λ c. Ran env (check_signed_contract env c) u v) cs

  abbrev pub ConfirmedRound : Trace → Trace → Type 0
  ConfirmedRound u v =
      (cs : List SignedContract) × (env.get_confirmed_contracts u ≡ ok cs)
      × All (λ c. ConfirmedRan env c u v) cs

  abbrev pub PreclosedRound : Trace → Trace → Type 0
  PreclosedRound u v =
      (cs : List PreClosedContract) × (env.get_preclosed_contracts u ≡ ok cs)
      × All (λ c. Ran env (check_preclosed_contract env c) u v) cs

  signed_round :
      Lists env
      → (w : Trace)
      → (acc : Affected) × ((check_signed_contracts env w).0 ≡ ok acc)
        × SignedRound w (check_signed_contracts env w).1
  unfolding check_signed_contracts ask ◌>>=◌
  signed_round h w =
      let (cs, listed, events) = h.lists_signed w in
      let u = get_signed_contracts ∷ w in
      let (acc, returns, all) = check_signed-All env cs [] u events in
      let final = (check_signed env cs [] u).1 in
      rw listed (
        acc,
        returns,
        (
          cs,
          refl,
          All-weaken _ _ cs
              (λ x.
                Ran-earlier env (check_signed_contract env x) w u final (more same reads_signed))
              all,
        ),
      )

  confirmed_round :
      Lists env
      → (w : Trace)
      → (acc : Affected) × ((check_confirmed_contracts env w).0 ≡ ok acc)
        × ConfirmedRound w (check_confirmed_contracts env w).1
  unfolding check_confirmed_contracts ask ◌>>=◌
  confirmed_round h w =
      let (cs, listed, events) = h.lists_confirmed w in
      let u = get_confirmed_contracts ∷ w in
      let (acc, returns, all) = check_confirmed-All env cs [] u events in
      let final = (check_confirmed env cs [] u).1 in
      rw listed (
        acc,
        returns,
        (
          cs,
          refl,
          All-weaken _ _ cs (λ x. ConfirmedRan-earlier env x w u final (more same reads_confirmed))
              all,
        ),
      )

  preclosed_round :
      Lists env
      → (w : Trace)
      → (acc : Affected) × ((check_preclosed_contracts env w).0 ≡ ok acc)
        × PreclosedRound w (check_preclosed_contracts env w).1
  unfolding check_preclosed_contracts ask ◌>>=◌
  preclosed_round h w =
      let (cs, listed, events) = h.lists_preclosed w in
      let u = get_preclosed_contracts ∷ w in
      let (acc, returns, all) = check_preclosed-All env cs [] u events in
      let final = (check_preclosed env cs [] u).1 in
      rw listed (
        acc,
        returns,
        (
          cs,
          refl,
          All-weaken _ _ cs
              (λ x.
                Ran-earlier env (check_preclosed_contract env x) w u final
                  (more same reads_preclosed))
              all,
        ),
      )

-- A periodic check returns its list whenever storage lists its contracts and each has an event,
-- whatever errors the blockchain, the clock, the oracles, the wallet and the writes give; by then the
-- check of every signed contract has run to its end, then that of every confirmed one that is of no
-- channel, and then that of every pre-closed one, of the contracts that storage listed when the round
-- began.
pub periodic_check-returns :
    (env : Peers)
    → Lists env
    → (w : Trace)
    → (affected : Affected) × ((periodic_check env w).0 ≡ ok affected)
      × ((v : Trace) × (v' : Trace) × SignedRound env w v
          × ConfirmedRound env v v'
          × PreclosedRound env v' (periodic_check env w).1)
unfolding periodic_check ◌>>=◌
periodic_check-returns env h w =
    let (a, returns_a, signed_done) = signed_round env h w in
    let v = (check_signed_contracts env w).1 in
    let (b, returns_b, confirmed_done) = confirmed_round env h v in
    let v' = (check_confirmed_contracts env v).1 in
    let (c, returns_c, preclosed_done) = preclosed_round env h v' in
    rw (returns_a, returns_b, returns_c)
      (a ++ b ++ c, refl, (v, v', signed_done, confirmed_done, preclosed_done))
