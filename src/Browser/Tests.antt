-- ===== src/Browser/Tests.antt =====
-- A contract whose id is the byte 51 throughout, the one that is read back.
use dlc_stack.Base.{◌<◌, ◌≡◌, refl, arith, [], ◌∷◌, ok, err, All}
use dlc_stack.Manager.Types.{ContractId, confirmed}
use dlc_stack.Manager.Tests.{signed_contract, sign_message}
use dlc_stack.Clients.Ids.{hex_bytes}
use dlc_stack.Browser.{Lib, from_contract}
use dlc_stack.Browser.Ids.{read_id, text_bytes, read_exact}
use dlc_stack.Browser.Shown.{from_contract-read_id}

abbrev threes : ContractId
threes =
    51 ∷ 51 ∷ 51 ∷ 51 ∷ 51 ∷ 51 ∷ 51 ∷ 51 ∷ 51 ∷ 51 ∷ 51 ∷ 51 ∷ 51 ∷ 51 ∷ 51 ∷ 51 ∷ 51 ∷ 51 ∷ 51
    ∷ 51 ∷ 51 ∷ 51 ∷ 51 ∷ 51 ∷ 51 ∷ 51 ∷ 51 ∷ 51 ∷ 51 ∷ 51 ∷ 51 ∷ 51 ∷ []

abbrev dep : Lib
dep = record {
  get_id = λ c. threes;
  offer_of = λ s. err "unused";
  sign_of = λ s. ok sign_message;
  accept_text = λ a. ok "accept";
  show_number = λ n. "0";
  show_error = λ e. "error";
}

small : All (λ b. b < 256) threes
small = (
  omega arith,
  (
    omega arith,
    (
      omega arith,
      (
        omega arith,
        (
          omega arith,
          (
            omega arith,
            (
              omega arith,
              (
                omega arith,
                (
                  omega arith,
                  (
                    omega arith,
                    (
                      omega arith,
                      (
                        omega arith,
                        (
                          omega arith,
                          (
                            omega arith,
                            (
                              omega arith,
                              (
                                omega arith,
                                (
                                  omega arith,
                                  (
                                    omega arith,
                                    (
                                      omega arith,
                                      (
                                        omega arith,
                                        (
                                          omega arith,
                                          (
                                            omega arith,
                                            (
                                              omega arith,
                                              (
                                                omega arith,
                                                (
                                                  omega arith,
                                                  (
                                                    omega arith,
                                                    (
                                                      omega arith,
                                                      (
                                                        omega arith,
                                                        (
                                                          omega arith,
                                                          (
                                                            omega arith,
                                                            (omega arith, (omega arith, tt)),
                                                          ),
                                                        ),
                                                      ),
                                                    ),
                                                  ),
                                                ),
                                              ),
                                            ),
                                          ),
                                        ),
                                      ),
                                    ),
                                  ),
                                ),
                              ),
                            ),
                          ),
                        ),
                      ),
                    ),
                  ),
                ),
              ),
            ),
          ),
        ),
      ),
    ),
  ),
)

from_contract-read_id_example : All (λ b. b ≡ 51) threes
unfolding from_contract read_id text_bytes read_exact hex_bytes
from_contract-read_id_example =
    from_contract-read_id dep (confirmed signed_contract) refl small refl

read_back : read_id (hex_bytes threes) ≡ ok threes
unfolding read_id text_bytes read_exact hex_bytes
read_back = refl

-- Another id is read as the characters of its text.
abbrev zeros : ContractId
zeros = 0 ∷ 1 ∷ 2 ∷ 3 ∷ 4 ∷ 5 ∷ 6 ∷ 7 ∷ 8 ∷ 9 ∷ 10 ∷ 11 ∷ 12 ∷ 13 ∷ 14 ∷ 15 ∷ []

read_zeros :
    read_id (hex_bytes zeros)
    ≡ ok (
        48 ∷ 48 ∷ 48 ∷ 49 ∷ 48 ∷ 50 ∷ 48 ∷ 51 ∷ 48 ∷ 52 ∷ 48 ∷ 53 ∷ 48 ∷ 54 ∷ 48 ∷ 55 ∷ 48 ∷ 56 ∷ 48
        ∷ 57 ∷ 48 ∷ 97 ∷ 48 ∷ 98 ∷ 48 ∷ 99 ∷ 48 ∷ 100 ∷ 48 ∷ 101 ∷ 48 ∷ 102 ∷ [])
unfolding read_id text_bytes read_exact hex_bytes
read_zeros = refl
