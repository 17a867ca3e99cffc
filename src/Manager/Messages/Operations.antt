-- ===== src/Manager/Messages/Operations.antt =====
-- All that `send_offer`, `accept_contract_offer` and `on_dlc_message` call.
use dlc_stack.Base.{ℕ, String, Option, none, some, List, [], ◌∷◌}
use dlc_stack.Manager.Types.{DlcMessage, offer, accept, sign, other_message}
use dlc_stack.Manager.Monad.{
  Trace, Emits, Emits-pure, Emits-bind, Emits-lift, Emits-ask, Extends, same, ask_step, lift_step,
  lift_at_step,
}
use dlc_stack.Manager.Peers.{Peers, ContractInput, ContractInputInfo}
use dlc_stack.Manager.Messages.{
  manager_oracles, first_info, announcements, all_announcements, send_offer, accept_contract_offer,
  on_dlc_message,
}
use dlc_stack.Manager.Messages.Allowed.{
  Operation, sends_offer, accepts_offer, receives, Allowed, asks_oracle, offers,
}
use dlc_stack.Manager.Messages.Transitions.{
  Emits-on_offer_message, Emits-accept_contract_offer, Emits-on_accept_message,
  Emits-on_sign_message,
}

module _ (env : Peers) (op : Operation) where
  Emits-announcements :
      (event_id : String) (ks : List String)
      → Emits (Allowed env op) (announcements env event_id ks)
  unfolding announcements
  Emits-announcements event_id [] = Emits-pure []
  Emits-announcements event_id (k ∷ ks) =
      Emits-bind _ _ (Emits-ask _ _ (λ w. asks_oracle))
        (λ a. Emits-bind _ _ (Emits-announcements event_id ks) (λ rest. Emits-pure _))

  Emits-all_announcements :
      (event_id : String) (kss : List (List String))
      → Emits (Allowed env op) (all_announcements env event_id kss)
  unfolding all_announcements
  Emits-all_announcements event_id [] = Emits-pure []
  Emits-all_announcements event_id (ks ∷ kss) =
      Emits-bind _ _ (Emits-announcements event_id ks)
        (λ a. Emits-bind _ _ (Emits-all_announcements event_id kss) (λ rest. Emits-pure _))

  Emits-manager_oracles : (o : Option (List String)) → Emits (Allowed env op) (manager_oracles o)
  Emits-manager_oracles none = record { at = λ w. same }
  Emits-manager_oracles (some oracles) = Emits-pure oracles

  Emits-first_info : (infos : List ContractInputInfo) → Emits (Allowed env op) (first_info infos)
  Emits-first_info [] = record { at = λ w. same }
  Emits-first_info (x ∷ xs) = Emits-pure x

module _ (env : Peers) where
  Emits-send_offer :
      (input : ContractInput) (peer : String) (delay fee : ℕ) (address : String)
      → Emits
          (Allowed env (sends_offer input peer delay fee address))
          (send_offer env input peer delay fee address)
  unfolding send_offer
  Emits-send_offer input peer delay fee address =
      Emits-bind _ _
        (Emits-manager_oracles env (sends_offer input peer delay fee address) env.oracles)
        (λ oracles. Emits-bind _ _ (Emits-lift _) (λ _.
          Emits-bind _ _ (Emits-first_info env (sends_offer input peer delay fee address) _)
            (λ info. Emits-bind _ _ (Emits-lift _) (λ set.
              Emits-bind _ _
                (Emits-all_announcements env (sends_offer input peer delay fee address) _ set)
                (λ found. record {
                  at = λ w. lift_at_step _ _ w w same (λ made same_made.
                      lift_step _ _ w w same
                        (λ _ valid. ask_step _ _ _ w w same (offers same_made valid) (λ _ _ t. t)));
                })))))

  Emits-on_dlc_message :
      (m : DlcMessage) (peer : String)
      → Emits (Allowed env (receives m peer)) (on_dlc_message env m peer)
  unfolding on_dlc_message
  Emits-on_dlc_message (offer o) peer =
      Emits-bind _ _ (Emits-on_offer_message env o peer) (λ _. Emits-pure none)
  Emits-on_dlc_message (accept a) peer =
      Emits-bind _ _ (Emits-on_accept_message env a peer) (λ m. Emits-pure (some m))
  Emits-on_dlc_message (sign s) peer =
      Emits-bind _ _ (Emits-on_sign_message env s peer) (λ _. Emits-pure none)
  Emits-on_dlc_message other_message peer = record { at = λ w. same }

-- What an operation has called, on top of what was called before.
abbrev pub called : Peers → Operation → Trace → Trace
called env (sends_offer input peer delay points address) w =
    (send_offer env input peer delay points address w).1
called env (accepts_offer id) w = (accept_contract_offer env id w).1
called env (receives m peer) w = (on_dlc_message env m peer w).1

-- Whatever a peer sends and whatever the user offers or accepts: a contract is created only from the
-- valid own offer of that operation, or from the valid offer that this peer has sent, under a free id;
-- the offered contract that the user names is accepted; a contract is signed or failed only by a
-- message with its id that is from its other party, when it is held as offered or accepted; a
-- transaction is sent only after the signed contract has been stored.
pub operations-AreAllowed :
    (env : Peers) (op : Operation) (w : Trace) → Extends (Allowed env op) w (called env op w)
operations-AreAllowed env (sends_offer input peer delay points address) w =
    (Emits-send_offer env input peer delay points address).at w
operations-AreAllowed env (accepts_offer id) w = (Emits-accept_contract_offer env id).at w
operations-AreAllowed env (receives m peer) w = (Emits-on_dlc_message env m peer).at w
