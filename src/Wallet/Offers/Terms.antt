-- ===== src/Wallet/Offers/Terms.antt =====
-- The terms of the offers that the router wallet makes.
use dlc_stack.Base.{
  map_err-ok, ℕ, zero, suc, ◌<◌, ◌≤◌, leb, String, ◌≡◌, refl, sym, ap, ◌∙◌, ◌⊎◌, inl, inr, arith,
  Bool-cases, length, ◌%◌, List, [], ◌∷◌, Result, ok, err,
}
use dlc_stack.Manager.Types.{OfferDlc, NumericalDescriptor, DigitDecompositionEventDescriptor}
use dlc_stack.Manager.Peers.{Peers, ContractInput, ContractInputInfo}
use dlc_stack.Manager.Messages.{send_offer}
use dlc_stack.Clients.Api.{Stateful, continue, ◌>>=◌, lift, failing_as}
use dlc_stack.Wallet.World.{World, managed}
use dlc_stack.Wallet.Offers.{
  Lib, Network, OfferRequest, contract_input, adjusted_refund_delay, ten_days,
  static_counterparty_node_id, create_new_offer,
}

module _ {S E A B : Type 0} where
  continue-ok :
      (r : Result E A) (f : A → Stateful S E B) (s : S) (b : B)
      → (continue r f s).0 ≡ ok b
      → (a : A) × (r ≡ ok a) × (continue r f s ≡ f a s)
  continue-ok (ok a) f s b e = (a, refl, refl)
  continue-ok (err x) f s b e = absurd (ground (arith, e))

-- The delay that was asked for, if it is between one second and ten days, and ten days otherwise.
abbrev pub IsDelay : ℕ → ℕ → Type 0
IsDelay asked given =
    ((0 < asked) × (asked ≤ ten_days) × (given ≡ asked))
    ⊎ (((asked ≡ 0) ⊎ (ten_days < asked)) × (given ≡ ten_days))

adjusted_refund_delay-IsDelay : (n : ℕ) → IsDelay n (adjusted_refund_delay n)
unfolding adjusted_refund_delay
adjusted_refund_delay-IsDelay zero = inr (inl refl, refl)
adjusted_refund_delay-IsDelay (suc n) = elim (Bool-cases (leb ten_days (suc n))) [
  | inl b ↦ rw b (at_least (ground (arith, b)))
  | inr b ↦ rw b (inl (omega arith, ground (arith, b), refl))
]
  where
    at_least : ten_days ≤ suc n → IsDelay (suc n) ten_days
    at_least h = elim (Bool-cases (leb (suc n) ten_days)) [
      | inl d ↦ inl (omega arith, ground (arith, d), ground (arith, h, d))
      | inr d ↦ inr (inr (ground (arith, d)), refl)
    ]

-- The input of an offer: all the attestors for the event of the request, the threshold their number
-- as a `u16`, and the collaterals of the request.
pub record IsInput (attestors : List String) (req : OfferRequest) (input : ContractInput)
    : Type 0 where
  pub info : ContractInputInfo
  pub only_info : input.contract_infos ≡ info ∷ []
  pub all_attestors : info.oracles.public_keys ≡ attestors
  pub all_needed : info.oracles.threshold ≡ length attestors % 65536
  pub event : info.oracles.event_id ≡ req.uuid
  pub own_part : input.offer_collateral ≡ req.offer_collateral
  pub other_part : input.accept_collateral ≡ req.accept_collateral

contract_input-IsInput :
    (network : Network) (attestors : List String) (req : OfferRequest)
    (descriptor : NumericalDescriptor)
    → IsInput attestors req (contract_input network attestors req descriptor)
unfolding contract_input
contract_input-IsInput network attestors req descriptor = record {
  info = _;
  only_info = refl;
  all_attestors = refl;
  all_needed = refl;
  event = refl;
  own_part = refl;
  other_part = refl;
}

-- The manager has sent the offer to the static counter party, on these terms, and the wallet did
-- nothing else.
abbrev pub IsSent : Peers → List String → OfferRequest → World → World → Type 0
IsSent env attestors req w w' =
    (input : ContractInput) × (delay : ℕ) × (address : String) × (made : OfferDlc) × IsInput
      attestors req input
    × IsDelay req.refund_delay delay
    × (managed
          (send_offer env input "02fc8e97419286cf05e5d133f41ff6d51f691dda039e9dc007245a421e2c7ec61c"
            delay req.btc_fee_basis_points address)
          w
        ≡ (ok made, w'))

module _ (env : Peers) (dep : Lib) (attestors : List String) (req : OfferRequest) (w : World) where
  -- The end of `create_new_offer`, on what has been parsed.
  abbrev sending : Network → NumericalDescriptor → String → Stateful World String OfferDlc
  sending network descriptor address = failing_as dep.show_error (
      managed (
        send_offer env (contract_input network attestors req descriptor) static_counterparty_node_id
          (adjusted_refund_delay req.refund_delay) req.btc_fee_basis_points address))

  abbrev Descriptors : Type 0
  Descriptors = DigitDecompositionEventDescriptor × NumericalDescriptor

  abbrev creating :
      Result String Network
      → Result String Descriptors
      → Result String String
      → Stateful World String String
  creating n i a = do
    network ← lift n
    info ← lift i
    address ← lift a
    made ← sending network info.1 address
    lift (dep.offer_text made)

  creating-IsSent :
      (n : Result String Network) (i : Result String Descriptors) (a : Result String String)
      (text : String)
      → (creating n i a w).0 ≡ ok text
      → IsSent env attestors req w (creating n i a w).1
  creating-IsSent (err x) i a text e = absurd (ground (arith, e))
  creating-IsSent (ok n) (err x) a text e = absurd (ground (arith, e))
  creating-IsSent (ok n) (ok i) (err x) text e = absurd (ground (arith, e))
  creating-IsSent (ok n) (ok i) (ok a) text e =
      let (made, sent, run) =
        continue-ok (sending n i.1 a w).0 (λ made. lift (dep.offer_text made)) (sending n i.1 a w).1
          text e in
      let result =
        (managed
          (send_offer env (contract_input n attestors req i.1) static_counterparty_node_id
            (adjusted_refund_delay req.refund_delay) req.btc_fee_basis_points a)
          w) in
      (
        contract_input n attestors req i.1,
        adjusted_refund_delay req.refund_delay,
        a,
        made,
        contract_input-IsInput n attestors req i.1,
        adjusted_refund_delay-IsDelay req.refund_delay,
        ap (λ r. (r, result.1)) (map_err-ok dep.show_error result.0 made sent)
            ∙ ap (λ v. (ok made, v)) (sym (ap (λ r. r.1) run)),
      )

-- A request for an offer succeeds only if the manager has sent an offer to the static counter
-- party: all the attestors are named, and needed (their number modulo 2^16), for the event of the
-- request; the collaterals are those of the request; the refund delay is the one of the request if
-- that is between one second and ten days, and ten days otherwise. Nothing else is done.
pub create_new_offer-IsSent :
    (env : Peers) (dep : Lib) (attestors : List String) (active_network : String)
    (req : OfferRequest) (w : World) (text : String)
    → (create_new_offer env dep attestors active_network req w).0 ≡ ok text
    → IsSent env attestors req w (create_new_offer env dep attestors active_network req w).1
unfolding create_new_offer
create_new_offer-IsSent env dep attestors active_network req w text e =
    creating-IsSent env dep attestors req w _ _ _ text e
