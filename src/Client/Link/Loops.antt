-- ===== src/Client/Link/Loops.antt =====
-- The goroutines of a link over the proxy server: client/client_vpn.go.
use go_cfc.Base.{ℕ, Bool, true, Option, none, some, List, [], ◌∷◌, Bytes}
use go_cfc.Wire.Cipher.{Gcm}
use go_cfc.Wire.Message.{Json}
use go_cfc.Client.Errors.{ClientError}
use go_cfc.Client.Link.{LinkClient, close}
use go_cfc.Client.Link.Sending.{write_from_copy_conn}

-- What is read of copyConn is written to the link: each round has the pieces of its Read, or none for
-- an error, with the outcomes of the writes, the time and the draw of its message. The end, by an
-- error, closes copyConn; `none` is a panic.
module _ (g : Gcm) (json : Json) where
  unfoldable pub copy_out :
      List (Option Bytes × (ℕ → Bool) × ℕ × ℕ) → LinkClient → Option LinkClient
  unfolding write_from_copy_conn
  copy_out [] lc = some lc
  copy_out ((none, accepts, now, draw) ∷ rounds) lc = some (record lc { copy_closed = true })
  copy_out ((some b, accepts, now, draw) ∷ rounds) lc =
      elim (write_from_copy_conn g json accepts now draw b lc) [
        | none ↦ none
        | some (some e, lc') ↦ some (record lc' { copy_closed = true })
        | some (none, lc') ↦ copy_out rounds lc'
      ]

-- The end of the goroutine of handleCMsg, which reads messages until there is an error: it closes
-- the link with that, and then once more without.
unfoldable pub stop_reading : Option ClientError → LinkClient → Option LinkClient
unfolding close
stop_reading none lc = elim (close none lc) [ none ↦ none | some (_, lc') ↦ some lc' ]
stop_reading (some e) lc = elim (close (some e) lc) [
  | none ↦ none
  | some (_, lc1) ↦ elim (close none lc1) [ none ↦ none | some (_, lc2) ↦ some lc2 ]
]
