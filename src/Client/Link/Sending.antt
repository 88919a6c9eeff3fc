-- ===== src/Client/Link/Sending.antt =====
-- What goes through a link: writeFromCopyConn, WriteToLinkConn, the callback of handleCMsg, and
-- LinkClientRW of client/client_vpn.go.
use go_cfc.Base.{
  ℕ, Bool, true, false, Option, none, some, List, [], ◌∷◌, ◌++◌, Bytes, length, if◌then◌else◌,
}
use go_cfc.Speed.{set}
use go_cfc.Wire.Errors.{ok, err, panic, stuck}
use go_cfc.Wire.Cipher.{Gcm}
use go_cfc.Wire.Message.{ConnMsg, Json, Data, bytes, set_msg}
use go_cfc.Base.Int.{pos}
use go_cfc.Client.Errors.{ClientError, Try, fine, fault, check, write_failed, read_failed, bad_json}
use go_cfc.Client.Link.{LinkClient, close}

-- The loop of writeFromCopyConn; `accepts` says whether the Write number n to the link succeeds.
unfoldable pub write_packets :
    (ℕ → Bool) → (now : ℕ) → List Bytes → LinkClient → Option ClientError × LinkClient
write_packets accepts now [] lc = (none, lc)
write_packets accepts now (one ∷ bs) lc = elim (accepts (length lc.link_written)) [
  | false ↦ (some write_failed, lc)
  | true ↦ write_packets accepts now bs (record lc {
    link_written = lc.link_written ++ one ∷ [];
    proxy_speed = record lc.proxy_speed { upload = set now (length one) lc.proxy_speed.upload };
  })
]

-- The message takes the draw `draw` of the random source, and its packets the next ones.
module _ (g : Gcm) (json : Json) where
  unfoldable pub write_from_copy_conn :
      (ℕ → Bool) → (now draw : ℕ) → Bytes → LinkClient → Option (Option ClientError × LinkClient)
  unfolding write_packets
  write_from_copy_conn accepts now draw b lc =
      elim (set_msg g json lc.proxy_key draw "ConnVPNQ2" "" (pos 200) (bytes b)) [
        | ok bs ↦ some (write_packets accepts now bs lc)
        | err _ ↦ none
        | panic ↦ none
        | stuck ↦ none
      ]

  unfoldable pub write_to_link_conn :
      (ℕ → Bool) → (now draw : ℕ) → Bytes → LinkClient → Option (Option ClientError × LinkClient)
  unfolding write_from_copy_conn
  write_to_link_conn accepts now draw b lc =
      if lc.proxy_switch
      then write_from_copy_conn accepts now draw b lc
      else if accepts (length lc.link_written)
      then some (none, record lc { link_written = lc.link_written ++ b ∷ [] })
      else some (some write_failed, lc)

  -- The callback of handleCMsg: cMsg.Unmarshal into a byte slice is `to_bytes`, and `accepts` says
  -- whether copyConn takes them.
  unfoldable pub on_copy_msg :
      (Data json.J → Option Bytes)
      → (accepts : Bool) → ConnMsg (Data json.J)
      → LinkClient
      → Option LinkClient
  unfolding close
  on_copy_msg to_bytes accepts m lc =
      let shut = λ (e : ClientError). elim (close (some e) lc) as (λ _. Option LinkClient) [
        | none ↦ none
        | some (_, lc') ↦ some lc'
      ] in
      elim (check m "ConnVPNA2") [
        | fault e ↦ shut e
        | fine _ ↦ elim (to_bytes m.payload) [
          | none ↦ shut bad_json
          | some b ↦
              if accepts
              then some (record lc { copy_written = lc.copy_written ++ b ∷ [] })
              else shut write_failed
        ]
      ]

-- LinkClientRW: what a read and a write of the connection give, at `now`.
unfoldable pub link_read : Option Bytes → (now : ℕ) → LinkClient → Try Bytes × LinkClient
link_read none now lc = (fault read_failed, lc)
link_read (some b) now lc = (
  fine b,
  record lc {
    proxy_speed = record lc.proxy_speed { download = set now (length b) lc.proxy_speed.download };
  },
)

unfoldable pub link_write :
    (accepts : Bool) → (now : ℕ) → Bytes → LinkClient → Option ClientError × LinkClient
unfolding write_packets
link_write accepts now b lc = write_packets (λ _. accepts) now (b ∷ []) lc
