-- ===== src/Storage/Sql/Reads.antt =====
-- What a later SELECT sees of an INSERT, an UPDATE or a DELETE.
use dlc_stack.Base.{
  ◌≡◌, refl, Bool, true, false, not, List, [], ◌∷◌, ◌++◌, ℕ, suc, count, inl, inr, arith, Option,
  none, some, keep, find, exists_in, Bool-cases,
}
use dlc_stack.Storage.Sql.{set_where}

module _ {Row : Type 0} (p q : Row → Bool) where
  pub keep-keep-not :
      (rs : List Row)
      → ((r : Row) → q r ≡ true → p r ≡ false)
      → keep p (keep (λ r. not (q r)) rs) ≡ keep p rs
  keep-keep-not [] apart = refl
  keep-keep-not (r ∷ rs) apart = ground (arith, apart r, keep-keep-not rs apart)

  pub keep-set_where :
      (f : Row → Row) (rs : List Row)
      → ((r : Row) → q r ≡ true → (p r ≡ false) × (p (f r) ≡ false))
      → keep p (set_where q f rs) ≡ keep p rs
  keep-set_where f [] apart = refl
  keep-set_where f (r ∷ rs) apart = elim (Bool-cases (q r)) [
    | inl e ↦ let (old, new) = apart r e in rw (e, old, new) (keep-set_where f rs apart)
    | inr e ↦ rw (e, keep-set_where f rs apart)
  ]

module _ {Row : Type 0} (p : Row → Bool) where
  pub find-append :
      (rs : List Row) (r : Row)
      → exists_in p rs ≡ false
      → p r ≡ true
      → find p (rs ++ r ∷ []) ≡ some r
  find-append [] r e m = rw m
  find-append (s ∷ rs) r e m = ground (arith, find-append rs r)

  pub find-keep-not : (rs : List Row) → find p (keep (λ r. not (p r)) rs) ≡ none
  find-keep-not [] = refl
  find-keep-not (r ∷ rs) = ground (arith, find-keep-not rs)

  abbrev pub apply_to : (Row → Row) → Option Row → Option Row
  apply_to f none = none
  apply_to f (some r) = some (f r)

  pub find-set_where :
      (f : Row → Row) (rs : List Row)
      → ((r : Row) → p r ≡ true → p (f r) ≡ true)
      → find p (set_where p f rs) ≡ apply_to f (find p rs)
  find-set_where f [] same = refl
  find-set_where f (r ∷ rs) same = elim (Bool-cases (p r)) [
    | inl e ↦ rw (e, same r e)
    | inr e ↦ rw (e, e) (find-set_where f rs same)
  ]

  pub find_of_exists :
      (rs : List Row) → exists_in p rs ≡ true → (r : Row) × (find p rs ≡ some r) × (p r ≡ true)
  find_of_exists [] e = absurd (ground (arith, e))
  find_of_exists (r ∷ rs) e = elim (Bool-cases (p r)) [
    | inl b ↦ (r, rw b refl, b)
    | inr b ↦ let (s, found, holds) = find_of_exists rs (rw b at e) in (s, rw b found, holds)
  ]

  pub count_of_exists : (rs : List Row) → exists_in p rs ≡ true → (n : ℕ) × (count p rs ≡ suc n)
  count_of_exists [] e = absurd (ground (arith, e))
  count_of_exists (r ∷ rs) e = elim (Bool-cases (p r)) [
    | inl b ↦ (count p rs, rw b refl)
    | inr b ↦ let (n, counted) = count_of_exists rs (rw b at e) in (n, rw b counted)
  ]

  pub count_of_absent : (rs : List Row) → exists_in p rs ≡ false → count p rs ≡ 0
  count_of_absent [] e = refl
  count_of_absent (r ∷ rs) e = ground (arith, e, count_of_absent rs)

  pub set_where-absent :
      (f : Row → Row) (rs : List Row) → exists_in p rs ≡ false → set_where p f rs ≡ rs
  set_where-absent f [] e = refl
  set_where-absent f (r ∷ rs) e = ground (arith, e, set_where-absent f rs)

  pub find_ext : (q : Row → Bool) (rs : List Row) → ((r : Row) → q r ≡ p r) → find q rs ≡ find p rs
  find_ext q [] same = refl
  find_ext q (r ∷ rs) same = rw (same r, find_ext q rs same)

  pub exists_of_find : (rs : List Row) (r : Row) → find p rs ≡ some r → exists_in p rs ≡ true
  exists_of_find [] r e = absurd (ground (arith, e))
  exists_of_find (s ∷ rs) r e = elim (Bool-cases (p s)) [
    | inl b ↦ rw b refl
    | inr b ↦ rw b (exists_of_find rs r (rw b at e))
  ]
