-- ===== src/Wallet/Payout.antt =====
-- The payout curve and the event description of an offer: wallet/src/utils.rs.
use dlc_stack.Base.{
  ℕ, zero, suc, ◌+◌, ◌-◌, ◌%◌, ◌^◌, ◌<◌, ◌≤◌, ◌≡◌, ◌⊎◌, inl, inr, refl, arith, ltb, Bool-cases,
  List, [], ◌∷◌, Result, ok, err, ◌>>=◌,
}
use dlc_stack.Manager.Types.{
  Error, PayoutPoint, PolynomialPayoutCurvePiece, PayoutFunction, NumericalDescriptor,
  DigitDecompositionEventDescriptor,
}

-- The constructors of dlc_manager, which check what they are given.
pub record Lib : Type 0 where
  pub new_piece : List PayoutPoint → Result Error PolynomialPayoutCurvePiece
  pub new_function : List PolynomialPayoutCurvePiece → Result Error PayoutFunction

abbrev pub nb_digits : ℕ
nb_digits = 14

abbrev pub base : ℕ
base = 2

unfoldable pub max_value : ℕ
max_value = 2 ^ nb_digits - 1

-- The sum of two `u64`.
unfoldable pub total_collateral : ℕ → ℕ → ℕ
total_collateral accept_collateral offer_collateral =
    (accept_collateral + offer_collateral) % 2 ^ 64

abbrev pub point : ℕ → ℕ → PayoutPoint
point outcome payout = record {
  event_outcome = outcome;
  outcome_payout = payout;
  extra_precision = 0;
}

abbrev pub replicate : ℕ → ℕ → List ℕ
replicate x zero = []
replicate x (suc n) = x ∷ replicate x n

module _ (dep : Lib) where
  unfoldable pub get_polynomial_payout_curve_pieces :
      ℕ → ℕ → ℕ → Result Error (List PolynomialPayoutCurvePiece)
  get_polynomial_payout_curve_pieces accept_collateral offer_collateral total_outcomes = do
    let total = total_collateral accept_collateral offer_collateral
    rising ← dep.new_piece (point 0 0 ∷ point total_outcomes total ∷ [])
    flat ← dep.new_piece (point total_outcomes total ∷ point max_value total ∷ [])
    ok (rising ∷ flat ∷ [])

  unfoldable pub get_numerical_contract_descriptor :
      ℕ → ℕ → ℕ → ℕ → Result Error NumericalDescriptor
  get_numerical_contract_descriptor accept_collateral offer_collateral total_outcomes nb_attestors =
      do
        pieces ←
            get_polynomial_payout_curve_pieces accept_collateral offer_collateral total_outcomes
        payout_function ← dep.new_function pieces
        ok (record {
          payout_function = payout_function;
          begin_interval = 0;
          rounding_mod = 1;
          oracle_base = base;
          oracle_nb_digits = replicate nb_digits nb_attestors;
        })

  unfoldable pub get_numerical_contract_info :
      ℕ → ℕ → ℕ → ℕ → Result Error (DigitDecompositionEventDescriptor × NumericalDescriptor)
  get_numerical_contract_info accept_collateral offer_collateral total_outcomes nb_attestors = do
    descriptor ←
        get_numerical_contract_descriptor accept_collateral offer_collateral total_outcomes
          nb_attestors
    ok (record { base = base; unit = "btc/usd"; precision = 1; nb_digits = nb_digits }, descriptor)

-- The outcomes of the points rise.
abbrev pub IsIncreasing : List PayoutPoint → Type 0
IsIncreasing [] = Unit
IsIncreasing (p ∷ []) = Unit
IsIncreasing (p ∷ q ∷ rest) = (p.event_outcome < q.event_outcome) × IsIncreasing (q ∷ rest)

-- Each piece begins at the point where the one before it ends.
abbrev pub LastIs : PayoutPoint → List PayoutPoint → Type 0
LastIs q [] = ⊥
LastIs q (p ∷ []) = p ≡ q
LastIs q (p ∷ p' ∷ rest) = LastIs q (p' ∷ rest)

abbrev pub Joins : List PayoutPoint → List PayoutPoint → Type 0
Joins ps [] = ⊥
Joins ps (q ∷ qs) = LastIs q ps

abbrev pub IsContiguous : List PolynomialPayoutCurvePiece → Type 0
IsContiguous [] = Unit
IsContiguous (p ∷ []) = Unit
IsContiguous (p ∷ q ∷ rest) = Joins p.payout_points q.payout_points × IsContiguous (q ∷ rest)

-- Two or more points are a piece exactly if their outcomes rise (the refusal is needed of two points
-- only), and one or more pieces that join are a function.
pub record Accepts (dep : Lib) : Type 0 where
  pub takes_points :
      (p q : PayoutPoint) (rest : List PayoutPoint)
      → IsIncreasing (p ∷ q ∷ rest)
      → dep.new_piece (p ∷ q ∷ rest) ≡ ok (record { payout_points = p ∷ q ∷ rest })
  pub refuses_points :
      (p q : PayoutPoint)
      → q.event_outcome ≤ p.event_outcome
      → (e : Error) × (dep.new_piece (p ∷ q ∷ []) ≡ err e)
  pub takes_pieces :
      (p : PolynomialPayoutCurvePiece) (rest : List PolynomialPayoutCurvePiece)
      → IsContiguous (p ∷ rest)
      → dep.new_function (p ∷ rest) ≡ ok (record { payout_function_pieces = p ∷ rest })

abbrev pub Info : Type 0
Info = DigitDecompositionEventDescriptor × NumericalDescriptor

-- The payout rises from 0 at outcome 0 to the whole collateral at the number of outcomes, and stays
-- there up to 2^14 - 1; each attestor signs as many digits as the event has.
pub record IsDescription (all_of_it total_outcomes nb_attestors : ℕ) (info : Info) : Type 0 where
  pub curve :
      info.1.payout_function.payout_function_pieces
      ≡ record { payout_points = point 0 0 ∷ point total_outcomes all_of_it ∷ [] }
        ∷ record { payout_points = point total_outcomes all_of_it ∷ point 16383 all_of_it ∷ [] }
        ∷ []
  pub digits : info.1.oracle_nb_digits ≡ replicate info.0.nb_digits nb_attestors
  pub bases : info.1.oracle_base ≡ info.0.base

-- What becomes of an offer: it is described, if its number of outcomes is strictly between 0 and
-- 2^14 - 1, and refused with an error otherwise.
abbrev pub IsDescribedOrRefused : ℕ → ℕ → ℕ → Result Error Info → Type 0
IsDescribedOrRefused all_of_it n nb_attestors r =
    ((0 < n)
      × (n < 16383)
      × ((info : Info) × (r ≡ ok info) × IsDescription all_of_it n nb_attestors info))
    ⊎ (((n ≡ 0) ⊎ (16383 ≤ n)) × ((e : Error) × (r ≡ err e)))

module _ (dep : Lib) (law : Accepts dep) (a o n k : ℕ) (fits : a + o < 2 ^ 64) where
  whole : (a + o) % 2 ^ 64 ≡ a + o
  whole = omega (arith, fits)

  abbrev flat : List PayoutPoint
  flat = point n (a + o) ∷ point 16383 (a + o) ∷ []

  abbrev rising : List PayoutPoint
  rising = point 0 0 ∷ point n (a + o) ∷ []

  abbrev both : List PolynomialPayoutCurvePiece
  both = record { payout_points = rising } ∷ record { payout_points = flat } ∷ []

  described :
      0 < n
      → n < 16383
      → (info : Info) × (get_numerical_contract_info dep a o n k ≡ ok info)
        × IsDescription (a + o) n k info
  unfolding get_numerical_contract_info get_numerical_contract_descriptor
      get_polynomial_payout_curve_pieces total_collateral max_value
  described positive below = (
    (
      record { base = base; unit = "btc/usd"; precision = 1; nb_digits = nb_digits },
      record {
        payout_function = record { payout_function_pieces = both };
        begin_interval = 0;
        rounding_mod = 1;
        oracle_base = base;
        oracle_nb_digits = replicate nb_digits k;
      },
    ),
    rw
        (
          whole,
          law.takes_points (point 0 0) (point n (a + o)) [] (positive, tt),
          law.takes_points (point n (a + o)) (point 16383 (a + o)) [] (below, tt),
          law.takes_pieces (record { payout_points = rising })
              (record { payout_points = flat } ∷ []) (refl, tt),
        )
        refl,
    record { curve = refl; digits = refl; bases = refl },
  )

  refused_rising : n ≡ 0 → (e : Error) × (get_numerical_contract_info dep a o n k ≡ err e)
  unfolding get_numerical_contract_info get_numerical_contract_descriptor
      get_polynomial_payout_curve_pieces total_collateral
  refused_rising none =
      let (e, refused) = law.refuses_points (point 0 0) (point n (a + o)) (omega (arith, none)) in
      (e, rw (whole, refused) refl)

  refused_flat : 0 < n → 16383 ≤ n → (e : Error) × (get_numerical_contract_info dep a o n k ≡ err e)
  unfolding get_numerical_contract_info get_numerical_contract_descriptor
      get_polynomial_payout_curve_pieces total_collateral max_value
  refused_flat positive above =
      let (e, refused) = law.refuses_points (point n (a + o)) (point 16383 (a + o)) above in
      (
        e,
        rw (whole, law.takes_points (point 0 0) (point n (a + o)) [] (positive, tt), refused) refl,
      )

-- With a sum of collaterals below 2^64, an offer is described exactly if its number of outcomes is
-- strictly between 0 and 2^14 - 1, and refused with an error otherwise. In the description the payout
-- rises from 0 at outcome 0 to the whole collateral at that number and stays there up to 2^14 - 1, and
-- each attestor signs as many digits as the event has, to its base.
pub get_numerical_contract_info-IsDescribed :
    (dep : Lib) (accept_collateral offer_collateral total_outcomes nb_attestors : ℕ)
    → Accepts dep
    → accept_collateral + offer_collateral < 2 ^ 64
    → IsDescribedOrRefused (accept_collateral + offer_collateral) total_outcomes nb_attestors (
        get_numerical_contract_info dep accept_collateral offer_collateral total_outcomes
          nb_attestors)
get_numerical_contract_info-IsDescribed dep a o zero k law fits =
    inr (inl refl, refused_rising dep law a o 0 k fits refl)
get_numerical_contract_info-IsDescribed dep a o (suc n) k law fits =
    elim (Bool-cases (ltb (suc n) 16383)) [
      | inl b ↦
          let below : suc n < 16383 = ground (arith, b) in
          inl (omega arith, below, described dep law a o (suc n) k fits (omega arith) below)
      | inr b ↦
          let above : 16383 ≤ suc n = ground (arith, b) in
          inr (inr above, refused_flat dep law a o (suc n) k fits (omega arith) above)
    ]
