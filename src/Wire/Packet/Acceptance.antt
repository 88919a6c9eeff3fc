-- ===== src/Wire/Packet/Acceptance.antt =====
-- What ReadCPacket accepts, on any input.
use go_cfc.Base.{
  ℕ, ◌+◌, ◌≤◌, ◌<◌, ◌≡◌, ◌≢◌, refl, Bool, true, false, arith, Bytes, length, take, drop,
}
use go_cfc.Base.Lists.{length-take, length-drop}
use go_cfc.Wire.Errors.{ok, panic, stuck, >>=-eq-ok}
use go_cfc.Wire.Numbers.{le_value}
use go_cfc.Wire.Cipher.{Gcm, decrypt, tool_hash, same_bytes}
use go_cfc.Wire.Cipher.RoundTrip.{same_bytes→eq, check_hash→eq}
use go_cfc.Wire.Packet.{Packet, wait, last, version, peek, open_packet, read_c_packet}
use go_cfc.Wire.Packet.RoundTrip.{numbered}

abbrev pub content : Packet → Bytes
content (wait b) = b
content (last b) = b

module _ (g : Gcm) (key : Bytes) where
  open_packet_inv :
      (pack : Bytes) (p : Packet)
      → open_packet g key pack ≡ ok p
      → (decrypt g (take 60 (drop 24 pack)) key ≡ ok (tool_hash g (drop 84 pack)))
        × (p ≡ numbered (le_value (take 8 (drop 84 pack))) (drop 92 pack))
  unfolding open_packet
  open_packet_inv pack p e =
      let (h, opened, more) = >>=-eq-ok (decrypt g (take 60 (drop 24 pack)) key) _ e in
      let same : h ≡ tool_hash g (drop 84 pack) = check_hash→eq g h (drop 84 pack) (ground arith) in
      (rw (← same) opened, ground arith)

  checks_inv :
      (skip : Bool) (s : Bytes) (p : Packet)
      → read_c_packet g key skip s ≡ ok p
      → let lens = le_value (take 8 (drop 16 (take 24 s))) in
        (skip ≡ false)
        × (same_bytes (take 16 s) version ≡ true)
        × (92 < lens)
        × (lens ≤ 4096)
        × (lens ≤ length s)
        × (open_packet g key (take lens s) ≡ ok p)
  unfolding read_c_packet peek
  checks_inv skip s p e = ground arith

  -- A packet that is accepted began with the version, announced a length of 93 to 4096 bytes that
  -- were all there, and carried under the key the hash of all that follows the hash; its data is
  -- what follows the header, and it is the last one exactly if its number is 0.
  pub read_c_packet_inv :
      (skip : Bool) (s : Bytes) (p : Packet)
      → read_c_packet g key skip s ≡ ok p
      → (lens : ℕ) × (skip ≡ false)
        × (take 16 s ≡ version)
        × (le_value (take 8 (drop 16 (take 24 s))) ≡ lens)
        × (92 < lens)
        × (lens ≤ 4096)
        × (lens ≤ length s)
        × (decrypt g (take 60 (drop 24 (take lens s))) key
            ≡ ok (tool_hash g (drop 84 (take lens s))))
        × (p ≡ numbered (le_value (take 8 (drop 84 (take lens s)))) (drop 92 (take lens s)))
  read_c_packet_inv skip s p e =
      let (off, ver, more, fits, whole, opened) = checks_inv skip s p e in
      let lens = le_value (take 8 (drop 16 (take 24 s))) in
      let (hash, shape) = open_packet_inv (take lens s) p opened in
      (lens, off, same_bytes→eq (take 16 s) version ver, refl, more, fits, whole, hash, shape)

  -- An accepted packet fills its announced length, so it can be discarded.
  pub length-content :
      (skip : Bool) (s : Bytes) (p : Packet)
      → read_c_packet g key skip s ≡ ok p
      → 92 + length (content p) ≤ length s
  length-content skip s p e =
      let (lens, _, _, _, more, fits, whole, _, shape) = read_c_packet_inv skip s p e in
      ground (arith, length-take lens s, length-drop 92 (take lens s))

  pub read_c_packet-no_fault :
      (skip : Bool) (s : Bytes)
      → (read_c_packet g key skip s ≢ stuck) × (read_c_packet g key skip s ≢ panic)
  unfolding read_c_packet peek open_packet decrypt
  read_c_packet-no_fault skip s = ground arith
