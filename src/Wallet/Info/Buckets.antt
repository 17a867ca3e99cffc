-- ===== src/Wallet/Info/Buckets.antt =====
-- Every contract is listed under its state, and nowhere else.
use mathlib.Core.List.{append-nil, append_assoc}
use dlc_stack.Base.{
  ℕ, zero, suc, ◌+◌, ◌<◌, String, Bool, true, false, ◌||◌, ◌==◌, List, [], ◌∷◌, ◌++◌, length, map,
  keep, nat_eq, ◌≡◌, ◌≢◌, refl, sym, ap, ◌∙◌, arith, none, some,
}
use dlc_stack.Manager.Types.{
  ContractId, Contract, offered, accepted, signed, confirmed, refunded, pre_closed, closed,
  failed_accept, failed_sign, rejected,
}
use dlc_stack.Api.Json.{Json, end, field, array}
use dlc_stack.Clients.Codec.{get_contract_state_str}
use dlc_stack.Clients.Ids.{hex_bytes}
use dlc_stack.Wallet.Info.{index_of, push, nine_empty, collect, strings, labelled, state_names}

index_of-small : (c : Contract) → index_of c < 9
index_of-small (offered c) = omega arith
index_of-small (accepted c) = omega arith
index_of-small (confirmed c) = omega arith
index_of-small (signed c) = omega arith
index_of-small (closed c) = omega arith
index_of-small (refunded c) = omega arith
index_of-small (failed_accept c) = omega arith
index_of-small (failed_sign c) = omega arith
index_of-small (rejected c) = omega arith
index_of-small (pre_closed c) = omega arith

abbrev pushed : ℕ → String → List (List String) → List (List String)
pushed i id [] = []
pushed zero id (ids ∷ rest) = (ids ++ id ∷ []) ∷ rest
pushed (suc i) id (ids ∷ rest) = ids ∷ pushed i id rest

push-pushed :
    (i : ℕ) (id : String) (lists : List (List String))
    → i < length lists
    → push i id lists ≡ some (pushed i id lists)
unfolding push
push-pushed i id [] h = absurd (omega (arith, h))
push-pushed zero id (ids ∷ rest) h = refl
push-pushed (suc i) id (ids ∷ rest) h = rw (push-pushed i id rest (omega (arith, h))) refl

length-pushed :
    (i : ℕ) (id : String) (lists : List (List String)) → length (pushed i id lists) ≡ length lists
length-pushed i id [] = refl
length-pushed zero id (ids ∷ rest) = refl
length-pushed (suc i) id (ids ∷ rest) = ap suc (length-pushed i id rest)

module _ (get_id : Contract → ContractId) where
  -- The ids of the contracts at an index, in the order of the store.
  abbrev pub bucket : ℕ → List Contract → List String
  bucket i cs = map (λ c. hex_bytes (get_id c)) (keep (λ c. nat_eq (index_of c) i) cs)

  abbrev pub buckets_from : ℕ → List (List String) → List Contract → List (List String)
  buckets_from i [] cs = []
  buckets_from i (ids ∷ rest) cs = (ids ++ bucket i cs) ∷ buckets_from (suc i) rest cs

  bucket-same :
      (i : ℕ) (c : Contract) (cs : List Contract)
      → index_of c ≡ i
      → bucket i (c ∷ cs) ≡ hex_bytes (get_id c) ∷ bucket i cs
  bucket-same i c cs e = let hit : nat_eq (index_of c) i ≡ true = ground (arith, e) in rw hit refl

  bucket-other :
      (i : ℕ) (c : Contract) (cs : List Contract) → index_of c ≢ i → bucket i (c ∷ cs) ≡ bucket i cs
  bucket-other i c cs e =
      let miss : nat_eq (index_of c) i ≡ false = ground (arith, e) in rw miss refl

  buckets_from-other :
      (i : ℕ) (lists : List (List String)) (c : Contract) (cs : List Contract)
      → index_of c < i
      → buckets_from i lists (c ∷ cs) ≡ buckets_from i lists cs
  buckets_from-other i [] c cs h = refl
  buckets_from-other i (ids ∷ rest) c cs h =
      rw (bucket-other i c cs (λ e. absurd (omega (arith, h, e)))) (
        ap (λ r. (ids ++ bucket i cs) ∷ r)
          (buckets_from-other (suc i) rest c cs (omega (arith, h))))

  -- A contract that is pushed at its index is in front of the later ones of its bucket.
  buckets_from-pushed :
      (k i : ℕ) (lists : List (List String)) (c : Contract) (cs : List Contract)
      → index_of c ≡ k + i
      → buckets_from i (pushed k (hex_bytes (get_id c)) lists) cs ≡ buckets_from i lists (c ∷ cs)
  buckets_from-pushed k i [] c cs e = refl
  buckets_from-pushed zero i (ids ∷ rest) c cs e =
      rw
        (
          bucket-same i c cs (omega (arith, e)),
          buckets_from-other (suc i) rest c cs (omega (arith, e)),
        )
        (ap (λ ids. ids ∷ buckets_from (suc i) rest cs)
          (append_assoc ids (hex_bytes (get_id c) ∷ []) (bucket i cs)))
  buckets_from-pushed (suc k) i (ids ∷ rest) c cs e =
      rw (bucket-other i c cs (λ same. absurd (omega (arith, same, e)))) (
        ap (λ r. (ids ++ bucket i cs) ∷ r)
          (buckets_from-pushed k (suc i) rest c cs (omega (arith, e))))

  buckets_from-nil : (i : ℕ) (lists : List (List String)) → buckets_from i lists [] ≡ lists
  buckets_from-nil i [] = refl
  buckets_from-nil i (ids ∷ rest) = rw (append-nil ids, buckets_from-nil (suc i) rest) refl

  collect-buckets_from :
      (cs : List Contract) (lists : List (List String))
      → length lists ≡ 9
      → collect get_id cs lists ≡ some (buckets_from 0 lists cs)
  unfolding collect
  collect-buckets_from [] lists nine = ap some (sym (buckets_from-nil 0 lists))
  collect-buckets_from (c ∷ cs) lists nine =
      let id = hex_bytes (get_id c) in
      let next = pushed (index_of c) id lists in
      ap (λ o. elim o [ none ↦ none | some following ↦ collect get_id cs following ])
        (push-pushed (index_of c) id lists (omega (arith, nine, index_of-small c)))
      ∙ (collect-buckets_from cs next (length-pushed (index_of c) id lists ∙ nine)
          ∙ ap some (buckets_from-pushed (index_of c) 0 lists c cs (omega arith)))

-- Each index against the state that storage knows the contract by.
abbrev Tests : Contract → Type 0
Tests c =
    (nat_eq (index_of c) 0 ≡ (get_contract_state_str c == "offered"))
    × (nat_eq (index_of c) 1 ≡ (get_contract_state_str c == "accepted"))
    × (nat_eq (index_of c) 2 ≡ (get_contract_state_str c == "confirmed"))
    × (nat_eq (index_of c) 3 ≡ (get_contract_state_str c == "signed"))
    × (nat_eq (index_of c) 4 ≡ (get_contract_state_str c == "closed"))
    × (nat_eq (index_of c) 5 ≡ (get_contract_state_str c == "refunded"))
    × (nat_eq (index_of c) 6 ≡ (
        (get_contract_state_str c == "failed_accept")
        || (get_contract_state_str c == "failed_sign")))
    × (nat_eq (index_of c) 7 ≡ (get_contract_state_str c == "rejected"))
    × (nat_eq (index_of c) 8 ≡ (get_contract_state_str c == "pre_closed"))

tests : (c : Contract) → Tests c
unfolding get_contract_state_str
tests (offered c) = (refl, refl, refl, refl, refl, refl, refl, refl, refl)
tests (accepted c) = (refl, refl, refl, refl, refl, refl, refl, refl, refl)
tests (confirmed c) = (refl, refl, refl, refl, refl, refl, refl, refl, refl)
tests (signed c) = (refl, refl, refl, refl, refl, refl, refl, refl, refl)
tests (closed c) = (refl, refl, refl, refl, refl, refl, refl, refl, refl)
tests (refunded c) = (refl, refl, refl, refl, refl, refl, refl, refl, refl)
tests (failed_accept c) = (refl, refl, refl, refl, refl, refl, refl, refl, refl)
tests (failed_sign c) = (refl, refl, refl, refl, refl, refl, refl, refl, refl)
tests (rejected c) = (refl, refl, refl, refl, refl, refl, refl, refl, refl)
tests (pre_closed c) = (refl, refl, refl, refl, refl, refl, refl, refl, refl)

keep-same :
    (p q : Contract → Bool) (cs : List Contract)
    → ((c : Contract) → p c ≡ q c)
    → keep p cs ≡ keep q cs
keep-same p q [] h = refl
keep-same p q (c ∷ cs) h = rw (h c, keep-same p q cs h) refl

-- The JSON array of the ids of the contracts that pass a test, in order.
abbrev pub ids_of : (Contract → ContractId) → (Contract → Bool) → List Contract → Json
ids_of get_id test cs = array (strings (map (λ c. hex_bytes (get_id c)) (keep test cs)))

bucket-ids_of :
    (get_id : Contract → ContractId) (i : ℕ) (test : Contract → Bool) (cs : List Contract)
    → ((c : Contract) → nat_eq (index_of c) i ≡ test c)
    → array (strings (bucket get_id i cs)) ≡ ids_of get_id test cs
bucket-ids_of get_id i test cs h =
    ap (λ kept. array (strings (map (λ c. hex_bytes (get_id c)) kept)))
      (keep-same (λ c. nat_eq (index_of c) i) test cs h)

-- The contracts that storage knows by a state.
abbrev pub is_in : String → Contract → Bool
is_in state c = get_contract_state_str c == state

-- The loop over the contracts never pushes past the end, and the JSON object made of its lists has,
-- under the name of each state, the ids of exactly the contracts that storage knows by this state, in
-- the order of the store; failed offers and failed signatures share the name `Failed`.
pub collect-buckets :
    (get_id : Contract → ContractId) (cs : List Contract)
    → (lists : List (List String)) × (collect get_id cs nine_empty ≡ some lists)
      × (labelled state_names lists
          ≡ field "Offered" (ids_of get_id (is_in "offered") cs) (
              field "Accepted" (ids_of get_id (is_in "accepted") cs) (
                field "Confirmed" (ids_of get_id (is_in "confirmed") cs) (
                  field "Signed" (ids_of get_id (is_in "signed") cs) (
                    field "Closed" (ids_of get_id (is_in "closed") cs) (
                      field "Refunded" (ids_of get_id (is_in "refunded") cs) (
                        field "Failed"
                          (ids_of get_id (λ c. is_in "failed_accept" c || is_in "failed_sign" c) cs)
                          (field "Rejected"
                            (ids_of get_id (is_in "rejected") cs)
                            (field "PreClosed" (ids_of get_id (is_in "pre_closed") cs) end)))))))))
collect-buckets get_id cs = (
  buckets_from get_id 0 nine_empty cs,
  collect-buckets_from get_id cs nine_empty refl,
  rw
      (
        bucket-ids_of get_id 0 (is_in "offered") cs (λ c. (tests c).0),
        bucket-ids_of get_id 1 (is_in "accepted") cs (λ c. (tests c).1),
        bucket-ids_of get_id 2 (is_in "confirmed") cs (λ c. (tests c).2),
        bucket-ids_of get_id 3 (is_in "signed") cs (λ c. (tests c).3),
        bucket-ids_of get_id 4 (is_in "closed") cs (λ c. (tests c).4),
        bucket-ids_of get_id 5 (is_in "refunded") cs (λ c. (tests c).5),
        bucket-ids_of get_id 6 (λ c. is_in "failed_accept" c || is_in "failed_sign" c) cs
            (λ c. (tests c).6),
        bucket-ids_of get_id 7 (is_in "rejected") cs (λ c. (tests c).7),
        bucket-ids_of get_id 8 (is_in "pre_closed") cs (λ c. (tests c).8),
      )
      refl,
)
