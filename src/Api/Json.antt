-- ===== src/Api/Json.antt =====
-- JSON values as serde_json has them, and the decoders that serde derives for the message structs
-- of storage/common/src/models.rs and storage/api/src/verify_sigs.rs.
use dlc_stack.Base.{ℕ, String, Bool, Option, none, some, ◌==◌, if◌then◌else◌}
use dlc_stack.Storage.Models.{
  NewContract, UpdateContract, DeleteContract, NewEvent, UpdateEvent, DeleteEvent,
}

mutual
  pub data Json : Type 0 where
    null : Json
    boolean : Bool → Json
    number : ℕ → Json
    string : String → Json
    array : Items → Json
    object : Fields → Json

  pub data Items : Type 0 where
    nil : Items
    cons : Json → Items → Items

  pub data Fields : Type 0 where
    end : Fields
    field : String → Json → Fields → Fields

unfoldable pub lookup : String → Fields → Option Json
lookup k end = none
lookup k (field j v fs) = if j == k then some v else lookup k fs

unfoldable pub insert : String → Json → Fields → Fields
insert k v end = field k v end
insert k v (field j w fs) = if j == k then field k v fs else field j w (insert k v fs)

abbrev pub as_str : Json → Option String
as_str (string s) = some s
as_str null = none
as_str _ = none

-- `value[k]`: null if the value is no object or has no such field.
unfoldable pub index : Json → String → Json
unfolding lookup
index (object fs) k = elim (lookup k fs) [ none ↦ null | some v ↦ v ]
index _ k = null

infixl 5 ◌>>=◌
abbrev ◌>>=◌ {ℓ κ} : {A : Type ℓ} {B : Type κ} → Option A → (A → Option B) → Option B
none >>= k = none
some a >>= k = k a

abbrev fields_of : Json → Option Fields
fields_of (object fs) = some fs
fields_of null = none
fields_of _ = none

-- A field of type `String`: it must be there and be a text.
abbrev text_field : String → Fields → Option String
text_field k fs = lookup k fs >>= as_str

abbrev nullable : Json → Option (Option String)
nullable null = some none
nullable (string s) = some (some s)
nullable _ = none

-- A field of type `Option<String>`: it may be missing or null.
abbrev option_field : String → Fields → Option (Option String)
option_field k fs = elim (lookup k fs) [ none ↦ some none | some v ↦ nullable v ]

unfoldable pub new_contract_of : Json → Option NewContract
unfolding lookup
new_contract_of v = do
  fs ← fields_of v
  uuid ← text_field "uuid" fs
  state ← text_field "state" fs
  content ← text_field "content" fs
  key ← text_field "key" fs
  some (record { uuid = uuid; state = state; content = content; key = key })

unfoldable pub update_contract_of : Json → Option UpdateContract
unfolding lookup
update_contract_of v = do
  fs ← fields_of v
  uuid ← text_field "uuid" fs
  state ← option_field "state" fs
  content ← option_field "content" fs
  key ← text_field "key" fs
  some (record { uuid = uuid; state = state; content = content; key = key })

unfoldable pub delete_contract_of : Json → Option DeleteContract
unfolding lookup
delete_contract_of v = do
  fs ← fields_of v
  uuid ← text_field "uuid" fs
  key ← text_field "key" fs
  some (record { uuid = uuid; key = key })

unfoldable pub new_event_of : Json → Option NewEvent
unfolding lookup
new_event_of v = do
  fs ← fields_of v
  event_id ← text_field "event_id" fs
  content ← text_field "content" fs
  key ← text_field "key" fs
  some (record { event_id = event_id; content = content; key = key })

unfoldable pub update_event_of : Json → Option UpdateEvent
unfolding lookup
update_event_of v = do
  fs ← fields_of v
  event_id ← text_field "event_id" fs
  content ← text_field "content" fs
  key ← text_field "key" fs
  some (record { event_id = event_id; content = content; key = key })

unfoldable pub delete_event_of : Json → Option DeleteEvent
unfolding lookup
delete_event_of v = do
  fs ← fields_of v
  event_id ← text_field "event_id" fs
  key ← text_field "key" fs
  some (record { event_id = event_id; key = key })

pub record AuthenticatedMessage : Type 0 where
  pub message : Json
  pub public_key : String
  pub signature : String

unfoldable pub authenticated_message_of : Json → Option AuthenticatedMessage
unfolding lookup
authenticated_message_of v = do
  fs ← fields_of v
  message ← lookup "message" fs
  public_key ← text_field "public_key" fs
  signature ← text_field "signature" fs
  some (record { message = message; public_key = public_key; signature = signature })
