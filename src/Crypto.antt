-- ===== src/Crypto.antt =====
-- crypto/crypto.go: conversions of secp256k1 keys and signatures between Flow's formats and others.
-- The curve (the package secp256k1) is a parameter. A Go string is the list of its bytes.
use rosetta.Shared.{
  ℕ, ◌+◌, ◌-◌, ◌*◌, ◌&&◌, Option, none, some, [], ◌∷◌, Bytes, leb, if◌then◌else◌, ◌>>=◌,
}

-- What crypto uses of secp256k1's public keys.
pub record Curve : Type 1 where
  pub PublicKey : Type 0
  pub parse : Bytes → Option PublicKey
  pub compressed : PublicKey → Bytes
  pub uncompressed : PublicKey → Bytes

-- encoding/hex.
pub hex_value : ℕ → Option ℕ
hex_value c =
    if leb 48 c && leb c 57
    then some (c - 48)
    else if leb 97 c && leb c 102
    then some (c - 87)
    else if leb 65 c && leb c 70
    then some (c - 55)
    else none

unfoldable pub hex_decode : Bytes → Option Bytes
unfolding hex_value
hex_decode [] = some []
hex_decode (c ∷ []) = none
hex_decode (c ∷ d ∷ cs) = do
  hi ← hex_value c
  lo ← hex_value d
  rest ← hex_decode cs
  some ((hi * 16 + lo) ∷ rest)

module _ (curve : Curve) where
  unfoldable pub convert_flow_public_key : Bytes → Option Bytes
  convert_flow_public_key key = do pub_key ← curve.parse (4 ∷ key); some (curve.compressed pub_key)
