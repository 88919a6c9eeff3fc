-- ===== src/Wire/Message/RoundTrip.antt =====
-- SetMsg, and ReadCMsg at the packets that it made.
use go_cfc.Base.{
  ℕ, suc, ◌^◌, ◌<◌, ◌≡◌, refl, Bool, false, List, [], ◌++◌, arith, Bytes, length, length-append,
  String, concat, map, none, some,
}
use go_cfc.Base.Int.{ℤ}
use go_cfc.Wire.Errors.{ok}
use go_cfc.Wire.Cipher.{Gcm, GcmLaws, encrypt}
use go_cfc.Wire.Cipher.RoundTrip.{length-encrypt, decrypt-encrypt}
use go_cfc.Wire.Packet.{split_loop, assembly_loop, assembly_bytes}
use go_cfc.Wire.Message.{
  ConnMsg, Data, bytes, value, Json, JsonLaws, Key, must_base64_to_bytes, must_bytes_to_base64,
  untag, tag, encode, decode, set_msg, finish_msg, read_c_msg,
}
use go_cfc.Wire.Message.Packets.{
  concat-split_loop, split_loop-IsChunk, split_loop-ne-nil, read_packets-assembly_loop,
  length-assembly_loop,
}

-- Data that a reader cannot take for a byte slice that was wrapped: a byte slice itself, or any
-- value but an object with the tag.
abbrev pub IsPlain : (json : Json) → Data json.J → Type 0
IsPlain json (bytes b) = Unit {0}
IsPlain json (value v) = json.tagged v ≡ none

module _ {json : Json} (jlaws : JsonLaws json) where
  pub untag-tag : (d : Data json.J) → IsPlain json d → untag json (tag json d) ≡ ok d
  unfolding untag tag must_base64_to_bytes must_bytes_to_base64
  untag-tag (bytes b) h =
      let (v, tagged, text) = jlaws.as_text-tagged-mash (json.encode64 b) in
      rw (tagged, text, jlaws.decode64-encode64 b)
  untag-tag (value v) h = rw h

  tag-value : (d : Data json.J) → (v : json.J) × (tag json d ≡ value v)
  unfolding tag
  tag-value (bytes b) = (must_bytes_to_base64 json b, refl)
  tag-value (value v) = (v, refl)

module _ (g : Gcm) (json : Json) (k : Key) where
  pub encode_inv :
      (draw : ℕ) (m : ConnMsg (Data json.J)) (pkts : List Bytes)
      → encode g json k draw m ≡ ok pkts
      → (plain bk : Bytes) × (json.marshal m ≡ some plain)
        × (encrypt g draw plain k.key_b ≡ ok bk)
        × (assembly_loop g k.key_b
              (suc draw)
              (length (split_loop (length bk) 4004 bk))
              0
              (split_loop (length bk) 4004 bk)
            ≡ ok pkts)
  unfolding encode assembly_bytes
  encode_inv draw m pkts e = ground arith

  decode-encrypt :
      (laws : GcmLaws g) (jlaws : JsonLaws json) (draw : ℕ) (m : ConnMsg (Data json.J)) (v : json.J)
      (plain bk : Bytes)
      → m.payload ≡ value v
      → json.marshal m ≡ some plain
      → encrypt g draw plain k.key_b ≡ ok bk
      → decode g json k bk ≡ ok m
  unfolding decode
  decode-encrypt laws jlaws draw m v plain bk is_value made sealed = ground (
    arith,
    length-encrypt laws draw plain k.key_b bk sealed,
    decrypt-encrypt laws draw plain k.key_b bk sealed,
    jlaws.unmarshal-marshal m v plain is_value made,
  )

module _ {g : Gcm} (laws : GcmLaws g) {json : Json} (jlaws : JsonLaws json) (k : Key) where
  finish_msg-encrypt :
      (draw : ℕ) (header id : String) (code : ℤ) (d : Data json.J) (plain bk : Bytes)
      → IsPlain json d
      → json.marshal (record { header = header; code = code; payload = tag json d; id = id })
        ≡ some plain
      → encrypt g draw plain k.key_b ≡ ok bk
      → finish_msg g json k bk ≡ ok (record { header = header; code = code; payload = d; id = id })
  unfolding finish_msg
  finish_msg-encrypt draw header id code d plain bk h made sealed =
      let (v, is_value) = tag-value jlaws d in
      rw (
        decode-encrypt g json k laws jlaws draw _ v plain bk is_value made sealed,
        untag-tag jlaws d h,
      )

  -- ReadCMsg returns the message that SetMsg put into packets, whatever bytes follow them: it
  -- leaves exactly those bytes unread and reports the size of each packet. The flag is off, the
  -- packets hold fewer than 2 ^ 64 bytes, and the data is a byte slice or a value without the tag.
  pub read_c_msg-set_msg :
      (skip : ℕ → Bool)
      → ((n : ℕ) → skip n ≡ false)
      → (draw : ℕ) (header id : String) (code : ℤ) (d : Data json.J) (pkts : List Bytes)
        (more : Bytes)
      → IsPlain json d
      → set_msg g json k draw header id code d ≡ ok pkts
      → length (concat pkts) < 2 ^ 64
      → read_c_msg g json k skip (concat pkts ++ more) ≡ record {
        result = ok (record { header = header; code = code; payload = d; id = id });
        rest = more;
        speed = map length pkts;
      }
  unfolding read_c_msg set_msg
  read_c_msg-set_msg skip off draw header id code d pkts more h e small =
      let (plain, bk, made, sealed, cut) = encode_inv g json k draw _ pkts e in
      let bs : List Bytes = split_loop (length bk) 4004 bk in
      let chunks = split_loop-IsChunk (length bk) 4004 bk (omega arith) (omega arith) in
      let count =
        length-assembly_loop laws k skip off bs pkts (suc draw) (length bs) 0 chunks cut in
      let whole = concat-split_loop (length bk) 4004 bk (omega arith) (omega arith) in
      let size = length-encrypt laws draw plain k.key_b bk sealed in
      rw (
        read_packets-assembly_loop laws k skip off bs pkts (suc (length (concat pkts ++ more)))
            (suc draw) (length bs) 0 0 [] more [] (split_loop-ne-nil 4004 bk (omega arith)) chunks
            (omega arith) (omega arith) (omega (arith, length-append (concat pkts) more)) cut,
        whole,
        finish_msg-encrypt draw header id code d plain bk h made sealed,
      )
