-- ===== src/Wallet/Retry.antt =====
-- The macro `retry!` of wallet/src/macros.rs. Its loop has no bound when the limit is 0, so it runs
-- on fuel here, one unit for each attempt.
use dlc_stack.Base.{
  ℕ, zero, suc, ◌+◌, ◌<◌, ◌≤◌, ltb, leb, ◌&&◌, if◌then◌else◌, Bool, true, false, Option, none, some,
  Result, ok, err, ◌≡◌, refl, ap, ◌∙◌, ◌⊎◌, inl, inr, arith,
}
use dlc_stack.Clients.Api.{Stateful}

module _ {S E A : Type 0} (attempt : Stateful S E A) where
  abbrev settled : Bool → Result E A × S → Option (Result E A × S) → Option (Result E A × S)
  settled given_up (ok val, s) more = some (ok val, s)
  settled given_up (err e, s) more = if given_up then some (err e, s) else more

  -- `$limit > 0 && retries >= $limit`, after this failure has been counted.
  abbrev gives_up : ℕ → ℕ → Bool
  gives_up limit retries = ltb 0 limit && leb limit retries

  unfoldable pub retry : ℕ → ℕ → ℕ → S → Option (Result E A × S)
  retry zero limit retries s = none
  retry (suc fuel) limit retries s =
      let (r, s') = attempt s in
      let more = retry fuel limit (suc retries) s' in
      settled (gives_up limit (suc retries)) (r, s') more

  -- The states before the first, the second and the later attempts.
  abbrev pub after : ℕ → S → S
  after zero s = s
  after (suc n) s = after n (attempt s).1

  settled-some :
      (given_up : Bool) (p : Result E A × S) (more : Option (Result E A × S))
      → (given_up ≡ false → (r : Result E A × S) × (more ≡ some r))
      → (r : Result E A × S) × (settled given_up p more ≡ some r)
  settled-some given_up (ok a, s) more h = (_, refl)
  settled-some true (err e, s) more h = (_, refl)
  settled-some false (err e, s) more h = h refl

  retry-settles :
      (fuel limit retries : ℕ) (s : S)
      → retries < limit
      → limit ≤ retries + fuel
      → (r : Result E A × S) × (retry fuel limit retries s ≡ some r)
  unfolding retry
  retry-settles zero limit retries s below enough = absurd (omega (arith, below, enough))
  retry-settles (suc fuel) limit retries s below enough =
      settled-some (gives_up limit (suc retries)) (attempt s) _ (λ again.
        retry-settles fuel limit (suc retries) (attempt s).1 (ground (arith, again, below))
          (omega (arith, enough)))

  -- The first attempts fail, each on the state that the one before it has left.
  abbrev pub Fails : ℕ → S → Type 0
  Fails zero s = Unit
  Fails (suc n) s = ((e : E) × ((attempt s).0 ≡ err e)) × Fails n (attempt s).1

  settled-later :
      (p : Result E A × S) (e : E) (given_up : Bool) (more : Option (Result E A × S))
      → p.0 ≡ err e
      → given_up ≡ false
      → settled given_up p more ≡ more
  settled-later (ok a, s) e given_up more failed on = absurd (ground (arith, failed))
  settled-later (err x, s) e given_up more failed on = rw on refl

  settled-now :
      (p : Result E A × S) (a : A) (given_up : Bool) (more : Option (Result E A × S))
      → p.0 ≡ ok a
      → settled given_up p more ≡ some (ok a, p.1)
  settled-now (ok b, s) a given_up more done = ap (λ r. some (r, s)) done
  settled-now (err x, s) a given_up more done = absurd (ground (arith, done))

  goes_on :
      (limit retries n : ℕ)
      → (limit ≡ 0) ⊎ (retries + suc n < limit)
      → gives_up limit (suc retries) ≡ false
  goes_on limit retries n (inl unlimited) = ground (arith, unlimited)
  goes_on limit retries n (inr below) = ground (arith, below)

  retry_from-succeeds :
      (n fuel limit retries : ℕ) (s : S) (a : A)
      → Fails n s
      → (attempt (after n s)).0 ≡ ok a
      → (limit ≡ 0) ⊎ (retries + n < limit)
      → n < fuel
      → retry fuel limit retries s ≡ some (ok a, after (suc n) s)
  unfolding retry
  retry_from-succeeds n zero limit retries s a fails done room enough =
      absurd (omega (arith, enough))
  retry_from-succeeds zero (suc fuel) limit retries s a fails done room enough =
      settled-now (attempt s) a (gives_up limit (suc retries)) _ done
  retry_from-succeeds (suc n) (suc fuel) limit retries s a ((e, failed), fails) done room enough =
      settled-later (attempt s) e (gives_up limit (suc retries)) _ failed
        (goes_on limit retries n room)
      ∙ retry_from-succeeds n fuel limit (suc retries) (attempt s).1 a fails done
          (later limit retries n room) (omega (arith, enough))
    where
      later :
          (limit retries n : ℕ)
          → (limit ≡ 0) ⊎ (retries + suc n < limit)
          → (limit ≡ 0) ⊎ (suc retries + n < limit)
      later limit retries n (inl unlimited) = inl unlimited
      later limit retries n (inr below) = inr (omega (arith, below))

-- With a limit above 0, as many attempts as the limit give a result.
pub retry-ends :
    {S E A : Type 0} (attempt : Stateful S E A) (limit : ℕ) (s : S)
    → 0 < limit
    → (r : Result E A × S) × (retry attempt limit limit 0 s ≡ some r)
retry-ends attempt limit s positive = retry-settles attempt limit limit 0 s positive (omega arith)

-- When n attempts fail and the next one succeeds, and there is no limit or it is above n, that
-- success is the result, and n + 1 attempts have been made.
pub retry-succeeds :
    {S E A : Type 0} (attempt : Stateful S E A) (n limit : ℕ) (s : S) (a : A)
    → Fails attempt n s
    → (attempt (after attempt n s)).0 ≡ ok a
    → (limit ≡ 0) ⊎ (n < limit)
    → retry attempt (suc n) limit 0 s ≡ some (ok a, after attempt (suc n) s)
retry-succeeds attempt n limit s a fails done room =
    retry_from-succeeds attempt n (suc n) limit 0 s a fails done (from_zero room) (omega arith)
  where
    from_zero : (limit ≡ 0) ⊎ (n < limit) → (limit ≡ 0) ⊎ (0 + n < limit)
    from_zero (inl unlimited) = inl unlimited
    from_zero (inr below) = inr (omega (arith, below))
