-- ===== src/Browser/Shown.antt =====
-- The ids that the browser wallet shows, given back to it.
use dlc_stack.Base.{◌<◌, ◌≡◌, ok, length, All}
use dlc_stack.Manager.Types.{Contract}
use dlc_stack.Browser.{Lib, from_contract}
use dlc_stack.Browser.Ids.{read_id, read_id-shown}

-- The id that the wallet shows of a contract is read back as the contract's id of 32 bytes only if
-- each of these bytes is 51, the code of a 3.
pub from_contract-read_id :
    (dep : Lib) (contract : Contract)
    → length (dep.get_id contract) ≡ 32
    → All (λ b. b < 256) (dep.get_id contract)
    → read_id (from_contract dep contract).id ≡ ok (dep.get_id contract)
    → All (λ b. b ≡ 51) (dep.get_id contract)
unfolding from_contract
from_contract-read_id dep contract size small e = read_id-shown (dep.get_id contract) size small e
