-- ===== src/Wire/Cipher/RoundTrip.antt =====
-- Encrypt and Decrypt of tool/tool.go, and checkHash on the hash of the same bytes.
use go_cfc.Base.{ℕ, ◌+◌, ◌≡◌, refl, true, some, [], ◌∷◌, ◌++◌, arith, Bytes, length, length-append}
use go_cfc.Base.Lists.{take-append, drop-append}
use go_cfc.Wire.Errors.{ok}
use go_cfc.Wire.Cipher.{Gcm, GcmLaws, encrypt, decrypt, tool_hash, same_bytes, check_hash}

pub same_bytes_refl : (b : Bytes) → same_bytes b b ≡ true
unfolding same_bytes
same_bytes_refl [] = refl
same_bytes_refl (x ∷ b) = ground (arith, same_bytes_refl b)

pub same_bytes→eq : (a b : Bytes) → same_bytes a b ≡ true → a ≡ b
unfolding same_bytes
same_bytes→eq [] [] h = refl
same_bytes→eq (x ∷ a) (y ∷ b) h = ground (arith, same_bytes→eq a b)
same_bytes→eq _ _ h = cc

module _ (g : Gcm) where
  pub check_hash-tool_hash : (b : Bytes) → check_hash g (tool_hash g b) b ≡ true
  unfolding check_hash
  check_hash-tool_hash b = ground (arith, same_bytes_refl (tool_hash g b))

  -- What the hash check accepts is the hash.
  pub check_hash→eq : (h b : Bytes) → check_hash g h b ≡ true → h ≡ tool_hash g b
  unfolding check_hash
  check_hash→eq h b e = ground (arith, same_bytes→eq h (tool_hash g b))

module _ {g : Gcm} (laws : GcmLaws g) where
  -- What Encrypt returned: the nonce that was drawn, and the sealed text behind it.
  pub encrypt_inv :
      (draw : ℕ) (plain key c : Bytes)
      → encrypt g draw plain key ≡ ok c
      → (nonce : Bytes) × (g.new_cipher key ≡ true)
        × (g.read_full draw ≡ some nonce)
        × (c ≡ nonce ++ g.seal key nonce plain)
  unfolding encrypt
  encrypt_inv draw plain key c e = ground arith

  pub length-encrypt :
      (draw : ℕ) (plain key c : Bytes)
      → encrypt g draw plain key ≡ ok c
      → length c ≡ length plain + 28
  length-encrypt draw plain key c e =
      let (nonce, _, drawn, shape) = encrypt_inv draw plain key c e in
      rw shape (
        omega (
          arith,
          length-append nonce (g.seal key nonce plain),
          laws.length-seal key nonce plain,
          laws.length-read_full draw nonce drawn,
          laws.nonce_size_lem,
        ))

  -- Decrypt returns the text that Encrypt was given under the same key.
  pub decrypt-encrypt :
      (draw : ℕ) (plain key c : Bytes)
      → encrypt g draw plain key ≡ ok c
      → decrypt g c key ≡ ok plain
  unfolding decrypt
  decrypt-encrypt draw plain key c e =
      let (nonce, good, drawn, shape) = encrypt_inv draw plain key c e in
      let sealed : Bytes = g.seal key nonce plain in
      let size = laws.length-read_full draw nonce drawn in
      ground (
        arith,
        good,
        shape,
        size,
        length-append nonce sealed,
        take-append g.nonce_size nonce sealed,
        drop-append g.nonce_size nonce sealed,
        laws.unseal-seal key nonce plain,
      )
