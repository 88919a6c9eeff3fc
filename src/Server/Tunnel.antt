-- ===== src/Server/Tunnel.antt =====
-- The functions that initVPNSettings gives to a link box (server/proxy_vpn.go).
use go_cfc.Base.{ℕ, Bool, Option, none, some, List, [], ◌∷◌, Bytes}
use go_cfc.Base.Int.{pos}
use go_cfc.Wire.Errors.{Result, ok, err, ◌>>=◌, eof, bad_json, unexpected_message}
use go_cfc.Wire.Cipher.{Gcm}
use go_cfc.Wire.Message.{
  ConnMsg, Json, Data, bytes, Key, check_conn_msg_header_and_code, set_msg, read_c_msg,
}
use go_cfc.LinkBox.{LinkBoxRwFn, read_some}

module _ (g : Gcm) (json : Json) (k : Key) where
  -- After ReadCMsg; `to_bytes` is cMsg.Unmarshal into a byte slice.
  unfoldable pub link_payload :
      (Data json.J → Option Bytes) → ConnMsg (Data json.J) → Result (List Bytes)
  link_payload to_bytes m = elim (to_bytes m.payload) [
    | none ↦ err bad_json
    | some b ↦ elim (check_conn_msg_header_and_code m "ConnVPNQ2" (pos 200)) [
      | none ↦ ok (b ∷ [])
      | some _ ↦ err unexpected_message
    ]
  ]

  -- The function for what the client sends; pc.reader is the reader that the box is called with.
  unfoldable pub vpn_read_fn : (Data json.J → Option Bytes) → (ℕ → Bool) → LinkBoxRwFn
  unfolding link_payload
  vpn_read_fn to_bytes skip s =
      let r = read_c_msg g json k skip s in (r.result >>= link_payload to_bytes, r.rest)

  -- The function for what the other side sends: `got` is what the Read gives, and `draw` is where
  -- SetMsg begins to draw.
  unfoldable pub vpn_write_fn : Option ℕ → (size draw : ℕ) → LinkBoxRwFn
  unfolding read_some
  vpn_write_fn got size draw s = elim (read_some got size s) [
    | none ↦ (err eof, s)
    | some (b, rest) ↦ (set_msg g json k draw "ConnVPNA2" "" (pos 200) (bytes b), rest)
  ]
