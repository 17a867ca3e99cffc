-- ===== src/Manager/Checks/Loops.antt =====
-- Each loop of the periodic check goes through all its contracts, whatever their checks give.
use dlc_stack.Base.{
  String, ◌≡◌, refl, sym, subst, ap, ◌⊎◌, inl, inr, Bool, true, false, Option, none, some, List, [],
  ◌∷◌, Result, ok, err, All,
}
use dlc_stack.Manager.Types.{ContractId, Error, ContractInfo, SignedContract, PreClosedContract}
use dlc_stack.Manager.Monad.{Trace, Action, Extends, same, Extends-trans, attempt, lift, ◌>>=◌}
use dlc_stack.Manager.Peers.{Peers}
use dlc_stack.Manager.Checks.{
  Affected, note, first_announcement, check_signed, check_signed_contract, check_unless_channel,
  check_confirmed, check_confirmed_contract, check_preclosed, check_preclosed_contract,
}
use dlc_stack.Manager.Checks.Justified.{Justified}
use dlc_stack.Manager.Checks.Evidence.{Emits-check_signed_contract, Emits-check_preclosed_contract}
use dlc_stack.Manager.Checks.Rounds.{
  Emits-check_signed, Emits-check_unless_channel, Emits-check_confirmed, Emits-check_preclosed,
}

-- The first contract info of the contract has an announcement.
abbrev pub HasEvent : List ContractInfo → Type 0
HasEvent infos = (event_id : String) × (first_announcement infos ≡ some event_id)

abbrev pub SignedHasEvent : SignedContract → Type 0
SignedHasEvent c = HasEvent c.accepted_contract.offered_contract.contract_info

-- Noting an affected contract calls nothing, and returns if the contract has an event.
note-returns :
    (id : ContractId) (infos : List ContractInfo) (acc : Affected) (r : Result Error Bool)
    → HasEvent infos
    → (w : Trace) → (acc' : Affected) × (note id infos acc r w ≡ (ok acc', w))
unfolding ◌>>=◌ lift
note-returns id infos acc (ok true) (event_id, e) w = rw e (_, refl)
note-returns id infos acc (ok false) h w = (acc, refl)
note-returns id infos acc (err e) h w = (acc, refl)

pub All-weaken :
    {A : Type 0} (P Q : A → Type 0) (xs : List A) → ((x : A) → P x → Q x) → All P xs → All Q xs
All-weaken P Q [] f h = tt
All-weaken P Q (x ∷ xs) f (p, h) = (f x p, All-weaken P Q xs f h)

-- The list that a loop returns, and what holds of each contract at the end of it.
abbrev Done : {A : Type 0} → (A → Trace → Type 0) → List A → Result Error Affected × Trace → Type 0
Done P cs p = (acc : Affected) × (p.0 ≡ ok acc) × All (λ c. P c p.1) cs

module _ (env : Peers) where
  -- Between `u` and `w` the action has run to its end, whatever its result.
  abbrev pub Ran : {A : Type 0} → Action A → Trace → Trace → Type 0
  Ran m u w = (v : Trace) × Extends (Justified env) u v × Extends (Justified env) (m v).1 w

  pub Ran-earlier :
      {A : Type 0} (m : Action A) (u v w : Trace)
      → Extends (Justified env) u v
      → Ran m v w
      → Ran m u w
  Ran-earlier m u v w e (x, before, after) = (x, Extends-trans e before, after)

  -- A confirmed contract that is of no channel has been checked.
  abbrev pub ConfirmedRan : SignedContract → Trace → Trace → Type 0
  ConfirmedRan c u w =
      ((id : ContractId) × (c.channel_id ≡ some id)) ⊎ Ran (check_confirmed_contract env c) u w

  pub ConfirmedRan-earlier :
      (c : SignedContract) (u v w : Trace)
      → Extends (Justified env) u v
      → ConfirmedRan c v w
      → ConfirmedRan c u w
  ConfirmedRan-earlier c u v w e (inl h) = inl h
  ConfirmedRan-earlier c u v w e (inr h) =
      inr (Ran-earlier (check_confirmed_contract env c) u v w e h)

  check_signed-nil : (acc : Affected) (w : Trace) → check_signed env [] acc w ≡ (ok acc, w)
  unfolding check_signed
  check_signed-nil acc w = refl

  check_signed-cons :
      (c : SignedContract) (cs : List SignedContract) (acc acc' : Affected) (w : Trace)
      → note
          (env.get_contract_id c.accepted_contract)
          c.accepted_contract.offered_contract.contract_info
          acc
          (check_signed_contract env c w).0
          (check_signed_contract env c w).1
        ≡ (ok acc', (check_signed_contract env c w).1)
      → check_signed env (c ∷ cs) acc w ≡ check_signed env cs acc' (check_signed_contract env c w).1
  unfolding check_signed attempt ◌>>=◌
  check_signed-cons c cs acc acc' w noted = rw noted refl

  pub check_signed-All :
      (cs : List SignedContract) (acc : Affected) (w : Trace)
      → All SignedHasEvent cs
      → (acc' : Affected) × ((check_signed env cs acc w).0 ≡ ok acc')
        × All (λ c. Ran (check_signed_contract env c) w (check_signed env cs acc w).1) cs
  check_signed-All [] acc w h =
      subst (Done (λ x v. Ran (check_signed_contract env x) w v) []) (sym (check_signed-nil acc w))
        (acc, refl, tt)
  check_signed-All (c ∷ cs) acc w (h, hs) =
      let (r, v) = check_signed_contract env c w in
      let (acc', noted) =
        note-returns (env.get_contract_id c.accepted_contract)
          c.accepted_contract.offered_contract.contract_info acc r h v in
      let (result, returns, all) = check_signed-All cs acc' v hs in
      let final = (check_signed env cs acc' v).1 in
      subst (Done (λ x v. Ran (check_signed_contract env x) w v) (c ∷ cs))
        (sym (check_signed-cons c cs acc acc' w noted))
        (
          result,
          returns,
          (
            (w, same, (Emits-check_signed env cs acc').at v),
            All-weaken _ _ cs
                (λ x.
                  Ran-earlier (check_signed_contract env x) w v final
                    ((Emits-check_signed_contract env c).at w))
                all,
          ),
        )

  check_preclosed-nil : (acc : Affected) (w : Trace) → check_preclosed env [] acc w ≡ (ok acc, w)
  unfolding check_preclosed
  check_preclosed-nil acc w = refl

  check_preclosed-cons :
      (c : PreClosedContract) (cs : List PreClosedContract) (acc acc' : Affected) (w : Trace)
      → note
          (env.get_contract_id c.signed_contract.accepted_contract)
          c.signed_contract.accepted_contract.offered_contract.contract_info
          acc
          (check_preclosed_contract env c w).0
          (check_preclosed_contract env c w).1
        ≡ (ok acc', (check_preclosed_contract env c w).1)
      → check_preclosed env (c ∷ cs) acc w
        ≡ check_preclosed env cs acc' (check_preclosed_contract env c w).1
  unfolding check_preclosed attempt ◌>>=◌
  check_preclosed-cons c cs acc acc' w noted = rw noted refl

  pub check_preclosed-All :
      (cs : List PreClosedContract) (acc : Affected) (w : Trace)
      → All (λ p. SignedHasEvent p.signed_contract) cs
      → (acc' : Affected) × ((check_preclosed env cs acc w).0 ≡ ok acc')
        × All (λ c. Ran (check_preclosed_contract env c) w (check_preclosed env cs acc w).1) cs
  check_preclosed-All [] acc w h =
      subst (Done (λ x v. Ran (check_preclosed_contract env x) w v) [])
        (sym (check_preclosed-nil acc w)) (acc, refl, tt)
  check_preclosed-All (c ∷ cs) acc w (h, hs) =
      let (r, v) = check_preclosed_contract env c w in
      let (acc', noted) =
        note-returns (env.get_contract_id c.signed_contract.accepted_contract)
          c.signed_contract.accepted_contract.offered_contract.contract_info acc r h v in
      let (result, returns, all) = check_preclosed-All cs acc' v hs in
      let final = (check_preclosed env cs acc' v).1 in
      subst (Done (λ x v. Ran (check_preclosed_contract env x) w v) (c ∷ cs))
        (sym (check_preclosed-cons c cs acc acc' w noted))
        (
          result,
          returns,
          (
            (w, same, (Emits-check_preclosed env cs acc').at v),
            All-weaken _ _ cs
                (λ x.
                  Ran-earlier (check_preclosed_contract env x) w v final
                    ((Emits-check_preclosed_contract env c).at w))
                all,
          ),
        )

  check_unless_channel-returns :
      (channel : Option ContractId) (c : SignedContract) (acc : Affected) (w : Trace)
      → SignedHasEvent c
      → (acc' : Affected) × ((check_unless_channel env channel c acc w).0 ≡ ok acc')
        × (((id : ContractId) × (channel ≡ some id))
            ⊎ ((check_unless_channel env channel c acc w).1 ≡ (check_confirmed_contract env c w).1))
  unfolding attempt ◌>>=◌
  check_unless_channel-returns (some id) c acc w h = (acc, refl, inl (id, refl))
  check_unless_channel-returns none c acc w h =
      let (r, v) = check_confirmed_contract env c w in
      let (acc', noted) =
        note-returns (env.get_contract_id c.accepted_contract)
          c.accepted_contract.offered_contract.contract_info acc r h v in
      (acc', ap (λ p. p.0) noted, inr (ap (λ p. p.1) noted))

  check_confirmed-nil : (acc : Affected) (w : Trace) → check_confirmed env [] acc w ≡ (ok acc, w)
  unfolding check_confirmed
  check_confirmed-nil acc w = refl

  check_confirmed-cons :
      (c : SignedContract) (cs : List SignedContract) (acc acc' : Affected) (w : Trace)
      → (check_unless_channel env c.channel_id c acc w).0 ≡ ok acc'
      → check_confirmed env (c ∷ cs) acc w
        ≡ check_confirmed env cs acc' (check_unless_channel env c.channel_id c acc w).1
  unfolding check_confirmed ◌>>=◌
  check_confirmed-cons c cs acc acc' w checked = rw checked refl

  pub check_confirmed-All :
      (cs : List SignedContract) (acc : Affected) (w : Trace)
      → All SignedHasEvent cs
      → (acc' : Affected) × ((check_confirmed env cs acc w).0 ≡ ok acc')
        × All (λ c. ConfirmedRan c w (check_confirmed env cs acc w).1) cs
  check_confirmed-All [] acc w h =
      subst (Done (λ x v. ConfirmedRan x w v) []) (sym (check_confirmed-nil acc w)) (acc, refl, tt)
  check_confirmed-All (c ∷ cs) acc w (h, hs) =
      let v = (check_unless_channel env c.channel_id c acc w).1 in
      let (acc', checked, how) = check_unless_channel-returns c.channel_id c acc w h in
      let (result, returns, all) = check_confirmed-All cs acc' v hs in
      let final = (check_confirmed env cs acc' v).1 in
      let rest = (Emits-check_confirmed env cs acc').at v in
      subst (Done (λ x v. ConfirmedRan x w v) (c ∷ cs))
        (sym (check_confirmed-cons c cs acc acc' w checked))
        (
          result,
          returns,
          (
            elim how [ inl channel ↦ inl channel | inr e ↦ inr (w, same, (rw (sym e) rest)) ],
            All-weaken _ _ cs
                (λ x.
                  ConfirmedRan-earlier x w v final
                    ((Emits-check_unless_channel env c.channel_id c acc).at w))
                all,
          ),
        )
