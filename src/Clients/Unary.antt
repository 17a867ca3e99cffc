-- ===== src/Clients/Unary.antt =====
-- Bytes in unary: what the tests take in place of base64.
use Prim.Native.Char.{code}
use Prim.Native.String.{[] as nil, ◌∷◌ as cons}
use dlc_stack.Base.{ℕ, zero, suc, nat_eq, String, ◌≡◌, refl, ap, ◌∙◌, [], ◌∷◌, if◌then◌else◌}
use dlc_stack.Clients.Codec.{Bytes}

unary : ℕ → String → String
unary zero s = cons "0" s
unary (suc n) s = cons "1" (unary n s)

pub encode : Bytes → String
encode [] = nil
encode (b ∷ bs) = unary b (encode bs)

bump : Bytes → Bytes
bump [] = []
bump (b ∷ bs) = suc b ∷ bs

pub decode : String → Bytes
decode nil = []
decode (cons c s) = let rest = decode s in if nat_eq (code c) 48 then 0 ∷ rest else bump rest

decode-unary : (b : ℕ) (s : String) → decode (unary b s) ≡ b ∷ decode s
unfolding decode unary bump
decode-unary zero s = refl
decode-unary (suc b) s = ap bump (decode-unary b s)

pub decode-encode : (bs : Bytes) → decode (encode bs) ≡ bs
unfolding decode encode
decode-encode [] = refl
decode-encode (b ∷ bs) = decode-unary b (encode bs) ∙ ap (λ rest. b ∷ rest) (decode-encode bs)
