-- ===== src/Transport/Envelope.antt =====
-- internal/transport/envelope.go: the seal over a response body. AES-256-GCM is a parameter.
use distributed_configs_fs.Base.{
  ℕ, Text, ◌++◌, ◌≡◌, Option, none, some, length, take, drop, ltb, if◌then◌else◌,
}
use distributed_configs_fs.Core.Error.{Result, ok, err, invalid}

pub record Gcm : Type 0 where
  -- key, nonce, plaintext
  pub encrypt : Text → Text → Text → Text
  -- key, nonce, ciphertext
  pub decrypt : Text → Text → Text → Option Text

abbrev pub nonce_size : ℕ
nonce_size = 12

-- What the code relies on: a sealed text opens under its key and nonce.
pub record IsAead (gcm : Gcm) : Type 0 where
  pub decrypt-encrypt :
      (key nonce plain : Text)
      → length nonce ≡ nonce_size
      → gcm.decrypt key nonce (gcm.encrypt key nonce plain) ≡ some plain

abbrev opened : Option Text → Result Text
opened none = err invalid
opened (some plain) = ok plain

module _ (gcm : Gcm) (key : Text) where
  -- `seal`, at the random nonce that it reads.
  unfoldable pub seal : Text → Text → Text
  seal nonce plain = nonce ++ gcm.encrypt key nonce plain

  -- `open`
  unfoldable pub unseal : Text → Result Text
  unseal payload =
      if ltb (length payload) nonce_size
      then err invalid
      else opened (gcm.decrypt key (take nonce_size payload) (drop nonce_size payload))
