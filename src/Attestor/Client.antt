-- ===== src/Attestor/Client.antt =====
-- attestor-client/src/lib.rs: the manager's oracle, which asks an attestor over HTTP.
use Prim.Native.Char.{code}
use Prim.Native.String.{[] as nil, ◌∷◌ as cons, ◌++◌ as append}
use dlc_stack.Base.{
  ℕ, String, Bool, true, false, ◌&&◌, leb, if◌then◌else◌, Option, none, some, List, Result, ok, err,
  map_err, ◌>>=◌,
}
use dlc_stack.Manager.Types.{Error, invalid_parameters, oracle_error}
use dlc_stack.Api.Json.{Json, index, as_str}
use dlc_stack.Attestor.Hex.{Decoded, bytes, failed, slice_panicked, DecodeHexError, decode_hex}

pub record AttestorClient : Type 0 where
  pub host : String
  pub public_key : String

-- The answers to a GET as text and as JSON, with the text of the error; the parser of a key, the
-- binary reader of an oracle message of type `A`, and the texts of errors.
pub record Lib (A : Type 0) : Type 0 where
  pub get_text : String → Result String String
  pub fetch : String → Result String Json
  pub parse_key : String → Option String
  pub read : List ℕ → Option A
  pub show_error : Error → String
  pub show_hex_error : DecodeHexError → String

-- An `unwrap` or a slice that fails is a panic.
pub data Answer (A : Type 0) : Type 0 where
  returned : Result Error A → Answer A
  panicked : Answer A

-- `ends_with('/')`
unfoldable pub ends_with_slash : String → Bool
ends_with_slash nil = false
ends_with_slash (cons c nil) = leb 47 (code c) && leb (code c) 47
ends_with_slash (cons c (cons d s)) = ends_with_slash (cons d s)

unfoldable pub with_slash : String → String
with_slash host = if ends_with_slash host then host else append host "/"

abbrev pub is_empty : String → Bool
is_empty nil = true
is_empty (cons c s) = false

abbrev pub pubkey_path : String → String
pubkey_path host = append host "publickey"

abbrev pub announcement_path : String → String → String
announcement_path host event_id = append host (append "event/" event_id)

abbrev pub attestation_path : String → String → String
attestation_path host event_id = append host (append "event/" event_id)

-- `v[field].as_str()`, or the error that it is missing.
unfoldable pub text_of : String → String → String → Json → Result Error String
text_of field missing event_id v = elim (as_str (index v field)) [
  | none ↦ err (oracle_error (append missing event_id))
  | some s ↦ ok s
]

module _ {A : Type 0} (lib : Lib A) where
  abbrev key_of : Option String → Result Error String
  key_of none = err (oracle_error "Oracle PubKey Error")
  key_of (some key) = ok key

  unfoldable pub new : String → Result Error AttestorClient
  new host = if is_empty host then err (invalid_parameters "Invalid host") else (do
    let slashed = with_slash host
    attestor_key ←
        map_err (λ e. oracle_error (append "Oracle PubKey Error: " e))
          (lib.get_text (pubkey_path slashed))
    public_key ← key_of (lib.parse_key attestor_key)
    ok (record { host = slashed; public_key = public_key }))

  unfoldable pub get_json : String → Result Error Json
  get_json path = map_err oracle_error (lib.fetch path)

  abbrev rewrapped : String → Error → Error
  rewrapped what e = oracle_error (append what (lib.show_error e))

  unfoldable pub get_chain : AttestorClient → String → Result Error String
  get_chain c event_id = do
    v ←
        map_err (rewrapped "Error getting announcement: ")
          (get_json (announcement_path c.host event_id))
    text_of "chain" "missing chain for event " event_id v

  -- `read(..).unwrap()`
  abbrev unwrapped : Option A → Answer A
  unwrapped none = panicked
  unwrapped (some a) = returned (ok a)

  unfoldable pub read_announcement : Decoded → Answer A
  read_announcement (bytes bs) = unwrapped (lib.read bs)
  read_announcement (failed e) =
      returned (err (oracle_error (append "Error decoding hex: " (lib.show_hex_error e))))
  read_announcement slice_panicked = panicked

  abbrev announcement_in : Result Error String → Answer A
  announcement_in (err e) = returned (err e)
  announcement_in (ok encoded) = read_announcement (decode_hex encoded)

  unfoldable pub get_announcement : AttestorClient → String → Answer A
  get_announcement c event_id = announcement_in (do
    v ←
        map_err (rewrapped (append "Error getting announcement " (append event_id ": ")))
          (get_json (announcement_path c.host event_id))
    text_of "rust_announcement" "missing announcement for event " event_id v)

  -- `decode_hex(..).unwrap()`
  unfoldable pub read_attestation : Decoded → Answer A
  read_attestation (bytes bs) = unwrapped (lib.read bs)
  read_attestation (failed e) = panicked
  read_attestation slice_panicked = panicked

  abbrev attestation_in : Result Error String → Answer A
  attestation_in (err e) = returned (err e)
  attestation_in (ok encoded) = read_attestation (decode_hex encoded)

  unfoldable pub get_attestation : AttestorClient → String → Answer A
  get_attestation c event_id = attestation_in (do
    v ← get_json (attestation_path c.host event_id)
    text_of "rust_attestation" "missing attestation for event " event_id v)
