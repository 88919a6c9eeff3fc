-- ===== src/Wire/Message/Sending.antt =====
-- SetMsg succeeds, and its packets keep within the buffer of the reader.
use go_cfc.Base.{
  ℕ, suc, ◌+◌, ◌-◌, ◌%◌, ◌^◌, ◌≤◌, ◌<◌, ◌≡◌, refl, ap, true, List, [], ◌∷◌, ◌++◌, arith, Bytes,
  length, some, String, All,
}
use go_cfc.Base.Int.{ℤ}
use go_cfc.Wire.Errors.{ok}
use go_cfc.Wire.Numbers.{le_bytes}
use go_cfc.Wire.Cipher.{Gcm, GcmLaws, encrypt, tool_hash}
use go_cfc.Wire.Cipher.RoundTrip.{length-encrypt}
use go_cfc.Wire.Packet.{split_loop, assembly_packet, assembly_loop, assembly_bytes}
use go_cfc.Wire.Packet.RoundTrip.{length-layout, assembly_packet_inv}
use go_cfc.Wire.Message.{Data, Json, Key, tag, encode, set_msg}
use go_cfc.Wire.Message.Packets.{IsChunk, split_loop-IsChunk}

-- A packet holds its header and at least one byte more, and fits the reader's buffer.
abbrev pub IsPacket : Bytes → Type 0
IsPacket p = (92 < length p) × (length p ≤ 4096)

-- The key is one that AES takes, and the random source does not fail.
pub record Ready (g : Gcm) (key : Bytes) : Type 0 where
  pub accepted : g.new_cipher key ≡ true
  pub drawn : (n : ℕ) → (nonce : Bytes) × (g.read_full n ≡ some nonce)

module _ {g : Gcm} (laws : GcmLaws g) (key : Bytes) (ready : Ready g key) where
  encrypt_succeeds : (draw : ℕ) (plain : Bytes) → (c : Bytes) × (encrypt g draw plain key ≡ ok c)
  unfolding encrypt
  encrypt_succeeds draw plain =
      let (nonce, e) = ready.drawn draw in (nonce ++ g.seal key nonce plain, rw (ready.accepted, e))

  hash_fits : (draw : ℕ) (b h : Bytes) → encrypt g draw (tool_hash g b) key ≡ ok h → length h ≡ 60
  unfolding tool_hash
  hash_fits draw b h e =
      omega (arith, length-encrypt laws draw (g.sum256 b) key h e, laws.length-sum256 b)

  packet_made :
      (draw l i : ℕ) (b1 h2 : Bytes)
      → encrypt g draw (tool_hash g (le_bytes 8 ((l - i - 1) % 2 ^ 64) ++ b1)) key ≡ ok h2
      → (pkg : Bytes) × (assembly_packet g key draw l i b1 ≡ ok pkg)
  unfolding assembly_packet
  packet_made draw l i b1 h2 e = rw e (rw (hash_fits draw _ h2 e) (_, refl))

  assembly_packet_succeeds :
      (draw l i : ℕ) (b1 : Bytes)
      → IsChunk b1
      → (pkg : Bytes) × (assembly_packet g key draw l i b1 ≡ ok pkg) × IsPacket pkg
  assembly_packet_succeeds draw l i b1 (pos, fits) =
      let (h, e) = encrypt_succeeds draw (tool_hash g (le_bytes 8 ((l - i - 1) % 2 ^ 64) ++ b1)) in
      let (pkg, made) = packet_made draw l i b1 h e in
      let (h2, _, size, shape) = assembly_packet_inv laws key draw l i b1 pkg fits made in
      let whole = length-layout (length b1 + 92) ((l - i - 1) % 2 ^ 64) h2 b1 size in
      (pkg, made, (omega (arith, ap length shape, whole), omega (arith, ap length shape, whole)))

  assembly_loop_succeeds :
      (bs : List Bytes) (draw l i : ℕ)
      → All IsChunk bs
      → (ps : List Bytes) × (assembly_loop g key draw l i bs ≡ ok ps)
        × All IsPacket ps
        × (length ps ≡ length bs)
  unfolding assembly_loop
  assembly_loop_succeeds [] draw l i good = ([], refl, tt, refl)
  assembly_loop_succeeds (b1 ∷ bs) draw l i (good, goods) =
      let (pkg, made, fits) = assembly_packet_succeeds draw l i b1 good in
      let (ps, rest, all, count) = assembly_loop_succeeds bs (suc draw) l (suc i) goods in
      (pkg ∷ ps, rw (made, rest), (fits, all), omega (arith, count))

module _ {g : Gcm} (laws : GcmLaws g) (json : Json) (k : Key) where
  -- With a key that AES accepts and a random source that works, SetMsg does not panic where
  -- json.Marshal succeeds: it makes packets of 93 to 4096 bytes, so each fits the reader's buffer.
  pub set_msg_succeeds :
      (draw : ℕ) (header id : String) (code : ℤ) (d : Data json.J) (plain : Bytes)
      → Ready g k.key_b
      → json.marshal (record { header = header; code = code; payload = tag json d; id = id })
        ≡ some plain
      → (pkts : List Bytes) × (set_msg g json k draw header id code d ≡ ok pkts) × All IsPacket pkts
  unfolding set_msg encode assembly_bytes
  set_msg_succeeds draw header id code d plain ready made =
      let (bk, sealed) = encrypt_succeeds laws k.key_b ready draw plain in
      let bs : List Bytes = split_loop (length bk) 4004 bk in
      let chunks = split_loop-IsChunk (length bk) 4004 bk (omega arith) (omega arith) in
      let (ps, e, all, _) =
        assembly_loop_succeeds laws k.key_b ready bs (suc draw) (length bs) 0 chunks in
      (ps, rw (made, sealed, e), all)
