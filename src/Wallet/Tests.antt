-- ===== src/Wallet/Tests.antt =====
-- A payout curve over constructors that check what they are given.
use dlc_stack.Base.{
  ◌≡◌, ◌≤◌, refl, arith, Bool, true, false, ◌&&◌, ltb, if◌then◌else◌, List, [], ◌∷◌, Result, ok,
  err,
}
use dlc_stack.Manager.Types.{
  Error, invalid_parameters, PayoutPoint, PolynomialPayoutCurvePiece, PayoutFunction,
}
use dlc_stack.Wallet.Payout.{
  Lib, Accepts, IsIncreasing, IsDescribedOrRefused, get_numerical_contract_info,
  get_numerical_contract_info-IsDescribed,
}

abbrev rises : List PayoutPoint → Bool
rises [] = true
rises (p ∷ []) = true
rises (p ∷ q ∷ rest) = let more = rises (q ∷ rest) in ltb p.event_outcome q.event_outcome && more

rises_of_IsIncreasing : (ps : List PayoutPoint) → IsIncreasing ps → rises ps ≡ true
rises_of_IsIncreasing [] h = refl
rises_of_IsIncreasing (p ∷ []) h = refl
rises_of_IsIncreasing (p ∷ q ∷ rest) (lt, h) =
    ground (arith, lt, rises_of_IsIncreasing (q ∷ rest) h)

abbrev new_piece : List PayoutPoint → Result Error PolynomialPayoutCurvePiece
new_piece [] = err (invalid_parameters "Insufficient number of points.")
new_piece (p ∷ []) = err (invalid_parameters "Insufficient number of points.")
new_piece (p ∷ q ∷ rest) =
    if rises (p ∷ q ∷ rest)
    then ok (record { payout_points = p ∷ q ∷ rest })
    else err (invalid_parameters "Payout points must be ordered")

abbrev new_function : List PolynomialPayoutCurvePiece → Result Error PayoutFunction
new_function [] = err (invalid_parameters "no pieces")
new_function (p ∷ ps) = ok (record { payout_function_pieces = p ∷ ps })

abbrev dep : Lib
dep = record { new_piece = new_piece; new_function = new_function }

refuses :
    (p q : PayoutPoint)
    → q.event_outcome ≤ p.event_outcome
    → (e : Error) × (new_piece (p ∷ q ∷ []) ≡ err e)
refuses p q h =
    let down : ltb p.event_outcome q.event_outcome ≡ false = ground (arith, h) in rw down (_, refl)

dep-Accepts : Accepts dep
dep-Accepts = record {
  takes_points = λ p q rest h. rw (rises_of_IsIncreasing (p ∷ q ∷ rest) h) refl;
  refuses_points = refuses;
  takes_pieces = λ p rest h. refl;
}

get_numerical_contract_info-IsDescribed_example :
    IsDescribedOrRefused 10100 10000 3 (get_numerical_contract_info dep 100 10000 10000 3)
get_numerical_contract_info-IsDescribed_example =
    get_numerical_contract_info-IsDescribed dep 100 10000 10000 3 dep-Accepts (omega arith)
