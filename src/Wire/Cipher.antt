-- ===== src/Wire/Cipher.antt =====
-- tool/tool.go: Encrypt, Decrypt, toolHash, checkHash, and the base64 wrapping of byte slices.
-- AES-GCM, SHA-256 and the random source are parameters: the record `Gcm` and its laws.
pub mod RoundTrip
use go_cfc.Base.{
  ℕ, ◌+◌, ◌≡◌, Bool, true, false, ◌&&◌, not, Option, none, some, [], ◌∷◌, ◌++◌, ltb, ◌==◌,
  if◌then◌else◌, Bytes, length, take, drop,
}
use go_cfc.Wire.Errors.{
  Result, ok, err, ◌>>=◌, ◌>>◌, fail_if, key_size, open_failed, no_randomness, ciphertext_too_short,
}

pub record Gcm : Type 0 where
  -- aes.NewCipher(key) succeeds
  pub new_cipher : Bytes → Bool
  pub nonce_size : ℕ
  -- gcm.Seal(nil, nonce, plaintext, nil) and gcm.Open(nil, nonce, ciphertext, nil)
  pub seal : Bytes → Bytes → Bytes → Bytes
  pub unseal : Bytes → Bytes → Bytes → Option Bytes
  -- the outcome of the n-th io.ReadFull(rand.Reader, nonce)
  pub read_full : ℕ → Option Bytes
  pub sum256 : Bytes → Bytes

-- The documented behaviour of those packages.
pub record GcmLaws (g : Gcm) : Type 0 where
  pub nonce_size_lem : g.nonce_size ≡ 12
  pub unseal-seal :
      (key nonce plain : Bytes) → g.unseal key nonce (g.seal key nonce plain) ≡ some plain
  pub length-seal : (key nonce plain : Bytes) → length (g.seal key nonce plain) ≡ length plain + 16
  pub length-read_full :
      (n : ℕ) (nonce : Bytes) → g.read_full n ≡ some nonce → length nonce ≡ g.nonce_size
  pub length-sum256 : (b : Bytes) → length (g.sum256 b) ≡ 32

abbrev or_fail : Option Bytes → Result Bytes → Result Bytes
or_fail none e = e
or_fail (some b) e = ok b

module _ (g : Gcm) where
  -- Encrypt(plaintext, key), whose nonce is the draw numbered `draw`.
  unfoldable pub encrypt : ℕ → Bytes → Bytes → Result Bytes
  encrypt draw plaintext key = do
    fail_if (not (g.new_cipher key)) key_size
    nonce ← or_fail (g.read_full draw) (err no_randomness)
    ok (nonce ++ g.seal key nonce plaintext)

  unfoldable pub decrypt : Bytes → Bytes → Result Bytes
  decrypt ciphertext key = do
    fail_if (not (g.new_cipher key)) key_size
    fail_if (ltb (length ciphertext) g.nonce_size) ciphertext_too_short
    or_fail (g.unseal key (take g.nonce_size ciphertext) (drop g.nonce_size ciphertext))
        (err open_failed)

  unfoldable pub tool_hash : Bytes → Bytes
  tool_hash b = g.sum256 b

-- The loop of checkHash, and the test of the lengths before it.
unfoldable pub same_bytes : Bytes → Bytes → Bool
same_bytes [] [] = true
same_bytes (a ∷ as') (b ∷ bs) = a == b && same_bytes as' bs
same_bytes _ _ = false

unfoldable pub check_hash : Gcm → Bytes → Bytes → Bool
check_hash g h d =
    let h2 = tool_hash g d in if not (length h == length h2) then false else same_bytes h h2
