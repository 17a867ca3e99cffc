-- ===== src/Browser/Ids.antt =====
-- `ContractId::read` of a text in wasm-wallet/src/lib.rs, and the ids that the wallet shows.
use Prim.Native.Char.{code}
use Prim.Native.String.{[] as nil, ◌∷◌ as cons}
use mathlib.Core.Option.{some-injective}
use dlc_stack.Base.{
  ℕ, zero, suc, ◌+◌, ◌/◌, ◌%◌, ◌<◌, ◌≤◌, ltb, if◌then◌else◌, String, ◌≡◌, refl, sym, ap, ◌∙◌, arith,
  Option, none, some, List, [], ◌∷◌, ◌++◌, Result, ok, err, length, All, ok-injective,
}
use dlc_stack.Manager.Types.{ContractId}
use dlc_stack.Clients.Ids.{hex_bytes, hex_digit}

-- A character in UTF-8.
abbrev pub utf8 : ℕ → List ℕ
utf8 c =
    if ltb c 128
    then c ∷ []
    else if ltb c 2048
    then (192 + c / 64) ∷ (128 + c % 64) ∷ []
    else if ltb c 65536
    then (224 + c / 4096) ∷ (128 + c / 64 % 64) ∷ (128 + c % 64) ∷ []
    else (240 + c / 262144) ∷ (128 + c / 4096 % 64) ∷ (128 + c / 64 % 64) ∷ (128 + c % 64) ∷ []

unfoldable pub text_bytes : String → List ℕ
text_bytes nil = []
text_bytes (cons c s) = utf8 (code c) ++ text_bytes s

-- The first bytes, if there are as many.
unfoldable pub read_exact : ℕ → List ℕ → Option (List ℕ)
read_exact zero bs = some []
read_exact (suc n) [] = none
read_exact (suc n) (b ∷ bs) =
    let rest = read_exact n bs in elim rest [ none ↦ none | some r ↦ some (b ∷ r) ]

abbrev filled : Option (List ℕ) → Result String ContractId
filled none = err "failed to fill whole buffer"
filled (some id) = ok id

-- The id is the first 32 bytes of the text itself.
unfoldable pub read_id : String → Result String ContractId
read_id contract_str = filled (read_exact 32 (text_bytes contract_str))

-- The digit of a half byte: one byte of text, which is in the half byte's column only as `3`.
record IsDigit (h : ℕ) : Type 0 where
  ascii : utf8 (code (hex_digit h)) ≡ code (hex_digit h) ∷ []
  three : code (hex_digit h) / 16 ≡ h → code (hex_digit h) ≡ 51

digit_lem : (h : ℕ) → h < 16 → IsDigit h
digit_lem zero small = record { ascii = refl; three = λ e. absurd (omega (arith, e)) }
digit_lem (suc zero) small = record { ascii = refl; three = λ e. absurd (omega (arith, e)) }
digit_lem (suc (suc zero)) small = record { ascii = refl; three = λ e. absurd (omega (arith, e)) }
digit_lem (suc (suc (suc zero))) small = record { ascii = refl; three = λ e. refl }
digit_lem (suc (suc (suc (suc zero)))) small = record {
  ascii = refl;
  three = λ e. absurd (omega (arith, e));
}
digit_lem (suc (suc (suc (suc (suc zero))))) small = record {
  ascii = refl;
  three = λ e. absurd (omega (arith, e));
}
digit_lem (suc (suc (suc (suc (suc (suc zero)))))) small = record {
  ascii = refl;
  three = λ e. absurd (omega (arith, e));
}
digit_lem (suc (suc (suc (suc (suc (suc (suc zero))))))) small = record {
  ascii = refl;
  three = λ e. absurd (omega (arith, e));
}
digit_lem (suc (suc (suc (suc (suc (suc (suc (suc zero)))))))) small = record {
  ascii = refl;
  three = λ e. absurd (omega (arith, e));
}
digit_lem (suc (suc (suc (suc (suc (suc (suc (suc (suc zero))))))))) small = record {
  ascii = refl;
  three = λ e. absurd (omega (arith, e));
}
digit_lem (suc (suc (suc (suc (suc (suc (suc (suc (suc (suc zero)))))))))) small = record {
  ascii = refl;
  three = λ e. absurd (omega (arith, e));
}
digit_lem (suc (suc (suc (suc (suc (suc (suc (suc (suc (suc (suc zero))))))))))) small = record {
  ascii = refl;
  three = λ e. absurd (omega (arith, e));
}
digit_lem (suc (suc (suc (suc (suc (suc (suc (suc (suc (suc (suc (suc zero)))))))))))) small =
    record { ascii = refl; three = λ e. absurd (omega (arith, e)) }
digit_lem (suc (suc (suc (suc (suc (suc (suc (suc (suc (suc (suc (suc (suc zero))))))))))))) small =
    record { ascii = refl; three = λ e. absurd (omega (arith, e)) }
digit_lem (suc (suc (suc (suc (suc (suc (suc (suc (suc (suc (suc (suc (suc (suc zero))))))))))))))
      small =
    record { ascii = refl; three = λ e. absurd (omega (arith, e)) }
digit_lem
      (suc (suc (suc (suc (suc (suc (suc (suc (suc (suc (suc (suc (suc (suc (suc zero)))))))))))))))
      small =
    record { ascii = refl; three = λ e. absurd (omega (arith, e)) }
digit_lem
      (suc
        (suc (suc (suc (suc (suc (suc (suc (suc (suc (suc (suc (suc (suc (suc (suc n))))))))))))))))
      small =
    absurd (omega (arith, small))

-- The first `k` bytes are 51, the code of `3`.
abbrev Threes : ℕ → List ℕ → Type 0
Threes zero bs = Unit
Threes (suc k) [] = ⊥
Threes (suc k) (b ∷ bs) = (b ≡ 51) × Threes k bs

abbrev double : ℕ → ℕ
double zero = zero
double (suc k) = suc (suc (double k))

Threes-text_bytes :
    (k : ℕ) (bs : List ℕ) → Threes k bs → Threes (double k) (text_bytes (hex_bytes bs))
unfolding text_bytes hex_bytes
Threes-text_bytes zero bs h = tt
Threes-text_bytes (suc k) [] h = absurd h
Threes-text_bytes (suc k) (b ∷ bs) (e, h) = rw e (refl, (refl, Threes-text_bytes k bs h))

abbrev head_or : ℕ → List ℕ → ℕ
head_or d [] = d
head_or d (b ∷ bs) = b

abbrev tail_of : List ℕ → List ℕ
tail_of [] = []
tail_of (b ∷ bs) = bs

read_exact-cons :
    (n : ℕ) (b c : ℕ) (xs bs : List ℕ)
    → read_exact (suc n) (b ∷ xs) ≡ some (c ∷ bs)
    → (b ≡ c) × (read_exact n xs ≡ some bs)
unfolding read_exact
read_exact-cons n b c xs bs e = go (read_exact n xs) refl e
  where
    go :
        (o : Option (List ℕ))
        → read_exact n xs ≡ o
        → elim o [ none ↦ none | some r ↦ some (b ∷ r) ] ≡ some (c ∷ bs)
        → (b ≡ c) × (read_exact n xs ≡ some bs)
    go none same e = absurd (ground (arith, e))
    go (some r) same e =
        let whole : b ∷ r ≡ c ∷ bs = some-injective (b ∷ r) (c ∷ bs) e in
        (ap (head_or 0) whole, same ∙ ap some (ap tail_of whole))

read_exact-nil : (n : ℕ) (b : ℕ) (xs : List ℕ) → read_exact (suc n) (b ∷ xs) ≡ some [] → ⊥
unfolding read_exact
read_exact-nil n b xs e = go (read_exact n xs) e
  where
    go : (o : Option (List ℕ)) → elim o [ none ↦ none | some r ↦ some (b ∷ r) ] ≡ some [] → ⊥
    go none e = absurd (ground (arith, e))
    go (some r) e = absurd (ground (arith, e))

Threes-read_exact :
    (n m : ℕ) (xs bs : List ℕ) → read_exact n xs ≡ some bs → m ≤ n → Threes m xs → Threes m bs
Threes-read_exact n zero xs bs e below h = tt
Threes-read_exact zero (suc m) xs bs e below h = absurd (omega (arith, below))
Threes-read_exact (suc n) (suc m) [] bs e below h = absurd h
Threes-read_exact (suc n) (suc m) (x ∷ xs) [] e below h = absurd (read_exact-nil n x xs e)
Threes-read_exact (suc n) (suc m) (x ∷ xs) (b ∷ bs) e below (three, h) =
    let (same, rest) = read_exact-cons n x b xs bs e in
    (sym same ∙ three, Threes-read_exact n m xs bs rest (omega (arith, below)) h)

-- The first byte of an id that is read from its own text.
first-three :
    (b : ℕ) (bs : List ℕ) (n : ℕ)
    → b < 256
    → read_exact (suc n) (text_bytes (hex_bytes (b ∷ bs))) ≡ some (b ∷ bs)
    → b ≡ 51
unfolding text_bytes hex_bytes
first-three b bs n small e =
    let upper : b / 16 < 16 = omega (arith, small) in
    let digit = digit_lem (b / 16) upper in
    let stream = text_bytes (cons (hex_digit (b % 16)) (hex_bytes bs)) in
    let read : read_exact (suc n) (code (hex_digit (b / 16)) ∷ stream) ≡ some (b ∷ bs) =
      sym (ap (λ d. read_exact (suc n) (d ++ stream)) digit.ascii) ∙ e in
    let (same, _) = read_exact-cons n _ b stream bs read in
    sym same ∙ digit.three (ap (λ c. c / 16) same)

Threes-doubled :
    (k : ℕ) (id : ContractId)
    → double k ≤ 32
    → read_exact 32 (text_bytes (hex_bytes id)) ≡ some id
    → Threes k id
    → Threes (double k) id
Threes-doubled k id small e h =
    Threes-read_exact 32 (double k) _ id e small (Threes-text_bytes k id h)

All-Threes : (n : ℕ) (bs : List ℕ) → length bs ≡ n → Threes n bs → All (λ b. b ≡ 51) bs
All-Threes n [] same h = tt
All-Threes zero (b ∷ bs) same h = absurd (omega (arith, same))
All-Threes (suc n) (b ∷ bs) same (e, h) = (e, All-Threes n bs (omega (arith, same)) h)

read_exact_of_read_id :
    (s : String) (id : ContractId) → read_id s ≡ ok id → read_exact 32 (text_bytes s) ≡ some id
unfolding read_id
read_exact_of_read_id s id e = go (read_exact 32 (text_bytes s)) e
  where
    go : (o : Option (List ℕ)) → filled o ≡ ok id → o ≡ some id
    go none e = absurd (ground (arith, e))
    go (some i) e = ap some (ok-injective {E = String} i id e)

-- An id of 32 bytes is read from the text under which it is shown only if each of its bytes is 51.
pub read_id-shown :
    (id : ContractId)
    → length id ≡ 32
    → All (λ b. b < 256) id
    → read_id (hex_bytes id) ≡ ok id
    → All (λ b. b ≡ 51) id
read_id-shown [] size small e = tt
read_id-shown (b ∷ bs) size (first, small) e =
    let read = read_exact_of_read_id (hex_bytes (b ∷ bs)) (b ∷ bs) e in
    let one : Threes 1 (b ∷ bs) = (first-three b bs 31 first read, tt) in
    let two = Threes-doubled 1 (b ∷ bs) (omega arith) read one in
    let four = Threes-doubled 2 (b ∷ bs) (omega arith) read two in
    let eight = Threes-doubled 4 (b ∷ bs) (omega arith) read four in
    let sixteen = Threes-doubled 8 (b ∷ bs) (omega arith) read eight in
    All-Threes 32 (b ∷ bs) size (Threes-doubled 16 (b ∷ bs) (omega arith) read sixteen)
