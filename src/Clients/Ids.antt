-- ===== src/Clients/Ids.antt =====
-- `get_contract_id_string` of clients/src/utils.rs: the text under which a contract is stored.
use Prim.Native.Char.{Char, code}
use Prim.Native.String.{[] as nil, ◌∷◌ as cons, char_at}
use dlc_stack.Base.{
  ℕ, zero, suc, ◌+◌, ◌*◌, ◌/◌, ◌%◌, ◌<◌, ◌-◌, ltb, if◌then◌else◌, String, ◌≡◌, refl, sym, ap, ◌∙◌,
  arith, List, [], ◌∷◌, All,
}
use dlc_stack.Manager.Types.{ContractId}

abbrev pub hex_digit : ℕ → Char
hex_digit n = char_at "0123456789abcdef" n

-- `{:02x}` of a byte.
unfoldable pub hex_bytes : List ℕ → String
hex_bytes [] = nil
hex_bytes (b ∷ bs) = cons (hex_digit (b / 16)) (cons (hex_digit (b % 16)) (hex_bytes bs))

unfoldable pub get_contract_id_string : ContractId → String
get_contract_id_string contract_id = cons "0" (cons "x" (hex_bytes contract_id))

digit_of : Char → ℕ
digit_of c = if ltb (code c) 58 then code c - 48 else code c - 87

digit_of-hex_digit : (n : ℕ) → n < 16 → digit_of (hex_digit n) ≡ n
unfolding digit_of
digit_of-hex_digit zero h = refl
digit_of-hex_digit (suc zero) h = refl
digit_of-hex_digit (suc (suc zero)) h = refl
digit_of-hex_digit (suc (suc (suc zero))) h = refl
digit_of-hex_digit (suc (suc (suc (suc zero)))) h = refl
digit_of-hex_digit (suc (suc (suc (suc (suc zero))))) h = refl
digit_of-hex_digit (suc (suc (suc (suc (suc (suc zero)))))) h = refl
digit_of-hex_digit (suc (suc (suc (suc (suc (suc (suc zero))))))) h = refl
digit_of-hex_digit (suc (suc (suc (suc (suc (suc (suc (suc zero)))))))) h = refl
digit_of-hex_digit (suc (suc (suc (suc (suc (suc (suc (suc (suc zero))))))))) h = refl
digit_of-hex_digit (suc (suc (suc (suc (suc (suc (suc (suc (suc (suc zero)))))))))) h = refl
digit_of-hex_digit (suc (suc (suc (suc (suc (suc (suc (suc (suc (suc (suc zero))))))))))) h = refl
digit_of-hex_digit (suc (suc (suc (suc (suc (suc (suc (suc (suc (suc (suc (suc zero)))))))))))) h =
    refl
digit_of-hex_digit
      (suc (suc (suc (suc (suc (suc (suc (suc (suc (suc (suc (suc (suc zero))))))))))))) h =
    refl
digit_of-hex_digit
      (suc (suc (suc (suc (suc (suc (suc (suc (suc (suc (suc (suc (suc (suc zero)))))))))))))) h =
    refl
digit_of-hex_digit
      (suc (suc (suc (suc (suc (suc (suc (suc (suc (suc (suc (suc (suc (suc (suc zero)))))))))))))))
      h =
    refl
digit_of-hex_digit
      (suc
        (suc (suc (suc (suc (suc (suc (suc (suc (suc (suc (suc (suc (suc (suc (suc n))))))))))))))))
      h =
    absurd (omega (arith, h))

-- The bytes that an even number of digits stands for.
bytes_of : String → List ℕ
bytes_of nil = []
bytes_of (cons c nil) = []
bytes_of (cons c (cons d s)) = (digit_of c * 16 + digit_of d) ∷ bytes_of s

bytes_of-hex_bytes : (bs : List ℕ) → All (λ b. b < 256) bs → bytes_of (hex_bytes bs) ≡ bs
unfolding bytes_of hex_bytes
bytes_of-hex_bytes [] h = refl
bytes_of-hex_bytes (b ∷ bs) (small, h) =
    let upper : b / 16 < 16 = omega (arith, small) in
    let lower : b % 16 < 16 = omega arith in
    let byte : b / 16 * 16 + b % 16 ≡ b = omega arith in
    rw (
      digit_of-hex_digit (b / 16) upper,
      digit_of-hex_digit (b % 16) lower,
      byte,
      bytes_of-hex_bytes bs h,
    )

-- Different contract ids are stored under different texts.
pub get_contract_id_string-injective :
    (m n : ContractId)
    → All (λ b. b < 256) m
    → All (λ b. b < 256) n
    → get_contract_id_string m ≡ get_contract_id_string n
    → m ≡ n
unfolding get_contract_id_string bytes_of
get_contract_id_string-injective m n small_m small_n same =
    sym (bytes_of-hex_bytes m small_m) ∙ ap (λ s. digits s) same ∙ bytes_of-hex_bytes n small_n
  where
    digits : String → List ℕ
    digits (cons zero_digit (cons x s)) = bytes_of s
    digits s = []
