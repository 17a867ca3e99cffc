-- ===== src/Attestor/Digits.antt =====
-- The digits of an outcome in attestor/src/lib.rs, `format!("{:0width$b}", outcome, ..)`, and
-- `build_attestation`, which signs each with its nonce.
use dlc_stack.Base.{
  ℕ, zero, suc, ◌+◌, ◌-◌, ◌*◌, ◌/◌, ◌%◌, ◌≤◌, ◌<◌, ◌≡◌, refl, ap, ◌∙◌, arith, true, false, ltb,
  if◌then◌else◌, List, [], ◌∷◌, ◌++◌, length, length-append, inl, inr, Bool-cases,
}

-- The binary digits of a number in front of others. Each step halves the number, so a fuel of the
-- number itself is enough.
unfoldable pub bits : ℕ → ℕ → List ℕ → List ℕ
bits zero n acc = n ∷ acc
bits (suc fuel) n acc =
    let more_bits = bits fuel (n / 2) (n % 2 ∷ acc) in if ltb n 2 then n ∷ acc else more_bits

abbrev pub zeros : ℕ → List ℕ
zeros zero = []
zeros (suc n) = 0 ∷ zeros n

unfoldable pub padded_binary : ℕ → ℕ → List ℕ
padded_binary width outcome =
    let digits = bits outcome outcome [] in zeros (width - length digits) ++ digits

-- The number that binary digits write.
abbrev pub number_from : ℕ → List ℕ → ℕ
number_from h [] = h
number_from h (d ∷ ds) = number_from (2 * h + d) ds

abbrev pub pow2 : ℕ → ℕ
pow2 zero = 1
pow2 (suc w) = pow2 w + pow2 w

number_from-bits :
    (fuel n : ℕ) (acc : List ℕ) → n ≤ fuel → number_from 0 (bits fuel n acc) ≡ number_from n acc
unfolding bits
number_from-bits zero n acc h =
    let whole : 2 * 0 + n ≡ n = omega arith in ap (λ m. number_from m acc) whole
number_from-bits (suc fuel) n acc h = elim (Bool-cases (ltb n 2)) [
  | inl b ↦ let whole : 2 * 0 + n ≡ n = omega arith in rw b (ap (λ m. number_from m acc) whole)
  | inr b ↦
      let big : 2 ≤ n = ground (arith, b) in
      let halved : n / 2 ≤ fuel = omega (arith, h, big) in
      let whole : 2 * (n / 2) + n % 2 ≡ n = omega arith in
      rw b (number_from-bits fuel (n / 2) (n % 2 ∷ acc) halved ∙ ap (λ m. number_from m acc) whole)
]

number_from-zeros : (k : ℕ) (ds : List ℕ) → number_from 0 (zeros k ++ ds) ≡ number_from 0 ds
number_from-zeros zero ds = refl
number_from-zeros (suc k) ds = number_from-zeros k ds

length-zeros : (k : ℕ) → length (zeros k) ≡ k
length-zeros zero = refl
length-zeros (suc k) = ap suc (length-zeros k)

length-bits_fits :
    (w fuel n : ℕ) (acc : List ℕ) → n < pow2 (suc w) → length (bits fuel n acc) ≤ suc w + length acc
unfolding bits
length-bits_fits w zero n acc h = omega arith
length-bits_fits zero (suc fuel) n acc h =
    let small : ltb n 2 ≡ true = ground (arith, h) in rw small (omega arith)
length-bits_fits (suc w) (suc fuel) n acc h = elim (Bool-cases (ltb n 2)) [
  | inl b ↦ rw b (omega arith)
  | inr b ↦
      let halved : n / 2 < pow2 (suc w) = omega (arith, h) in
      let shorter = length-bits_fits w fuel (n / 2) (n % 2 ∷ acc) halved in
      rw b (omega (arith, shorter))
]

pow2-positive : (w : ℕ) → 1 ≤ pow2 w
pow2-positive zero = omega arith
pow2-positive (suc w) = omega (arith, pow2-positive w)

two_of_big : (n : ℕ) → ltb n 2 ≡ false → 2 ≤ n
two_of_big n b = ground (arith, b)

small_of : (n : ℕ) → ltb n 2 ≡ true → n < 2
small_of n b = ground (arith, b)

length-bits_exceeds :
    (w fuel n : ℕ) (acc : List ℕ)
    → n ≤ fuel
    → pow2 w ≤ n
    → suc w + length acc ≤ length (bits fuel n acc)
unfolding bits
length-bits_exceeds zero zero n acc enough h = omega arith
length-bits_exceeds (suc w) zero n acc enough h = absurd (omega (arith, enough, h, pow2-positive w))
length-bits_exceeds zero (suc fuel) n acc enough h = elim (Bool-cases (ltb n 2)) [
  | inl b ↦ rw b (omega arith)
  | inr b ↦
      let halved : n / 2 ≤ fuel = omega (arith, enough, two_of_big n b) in
      let least : pow2 zero ≤ n / 2 = omega (arith, two_of_big n b) in
      let longer = length-bits_exceeds zero fuel (n / 2) (n % 2 ∷ acc) halved least in
      rw b (omega (arith, longer))
]
length-bits_exceeds (suc w) (suc fuel) n acc enough h = elim (Bool-cases (ltb n 2)) [
  | inl b ↦ absurd (omega (arith, small_of n b, h, pow2-positive w))
  | inr b ↦
      let halved : n / 2 ≤ fuel = omega (arith, enough, two_of_big n b) in
      let least : pow2 w ≤ n / 2 = omega (arith, h) in
      let longer = length-bits_exceeds w fuel (n / 2) (n % 2 ∷ acc) halved least in
      rw b (omega (arith, longer))
]

-- The digits write the outcome; there are as many as asked for when the outcome fits, and more when
-- it does not.
pub number_from-padded_binary : (w n : ℕ) → number_from 0 (padded_binary w n) ≡ n
unfolding padded_binary
number_from-padded_binary w n =
    number_from-zeros (w - length (bits n n [])) (bits n n [])
    ∙ number_from-bits n n [] (omega arith)

pub length-padded_binary_fits :
    (w n : ℕ) → n < pow2 (suc w) → length (padded_binary (suc w) n) ≡ suc w
unfolding padded_binary
length-padded_binary_fits w n h =
    let ds = bits n n [] in
    length-append (zeros (suc w - length ds)) ds
    ∙ omega (arith, length-zeros (suc w - length ds), length-bits_fits w n n [] h)

pub length-padded_binary_exceeds : (w n : ℕ) → pow2 w ≤ n → w < length (padded_binary w n)
unfolding padded_binary
length-padded_binary_exceeds w n h =
    let ds = bits n n [] in
    omega (
      arith,
      length-append (zeros (w - length ds)) ds,
      length-bits_exceeds w n n [] (omega arith) h,
    )
