-- ===== src/Netnacl/Laws.antt =====
-- What NaCl documents of its keys and of its secret-key encryption, as src/netnacl uses them.
use nacl_proxy.Base.{ℕ, ◌≡◌, some, List, ◌++◌, length, replicate}
use nacl_proxy.Netnacl.{Crypto, zero_bytes, publickey_bytes}

pub record CryptoLaws (crypto : Crypto) : Type 0 where
  -- the ciphertext is as long as the padded plaintext
  pub length_kept :
      (m nonce key : List ℕ)
      → let padded = replicate zero_bytes 0 ++ m in
        length (crypto.afternm padded nonce key) ≡ length padded
  -- a plaintext behind 32 zero bytes is opened again, padding included
  pub opens :
      (m nonce key : List ℕ)
      → let padded = replicate zero_bytes 0 ++ m in
        crypto.open_afternm (crypto.afternm padded nonce key) nonce key ≡ some padded
  pub key_size : (secret : List ℕ) → length (crypto.public_key secret) ≡ publickey_bytes
  -- two parties compute one shared key from the other's public key and their own secret key
  pub agree :
      (a b : List ℕ)
      → crypto.beforenm (crypto.public_key a) b ≡ crypto.beforenm (crypto.public_key b) a
