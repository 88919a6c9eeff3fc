-- ===== src/Client/Link/Answers.antt =====
-- What the server sends over a link of its box, against what the client makes of it.
use go_cfc.Base.{
  ℕ, suc, ◌<◌, ◌^◌, ◌≡◌, refl, sym, ap, ◌∙◌, Bool, true, false, Option, some, List, [], ◌∷◌, ◌++◌,
  Bytes, length, take, concat, arith,
}
use go_cfc.Base.Int.{pos}
use Prim.Native.Nat.{min}
use go_cfc.Base.Lists.{take-append-drop}
use mathlib.Core.List.{append_assoc, append-nil}
use go_cfc.Wire.Errors.{Result, ok, err, panic, stuck}
use go_cfc.Wire.Cipher.{Gcm, GcmLaws}
use go_cfc.Wire.Message.{
  ConnMsg, Json, JsonLaws, Data, bytes, Key, read_c_msg, check_conn_msg_header_and_code,
}
use go_cfc.Wire.Message.RoundTrip.{read_c_msg-set_msg}
use go_cfc.LinkBox.{LinkBox, LinkBoxRwFn, done, write_list, read_some, read_link_box_to_writer}
use go_cfc.Server.Tunnel.{vpn_write_fn}
use go_cfc.Client.Errors.{check}
use go_cfc.Client.Link.{LinkClient}
use go_cfc.Client.Link.Sending.{on_copy_msg}

write_list_all : (n : ℕ) (bs out : List Bytes) → write_list (λ _. true) n bs out ≡ (done, out ++ bs)
unfolding write_list
write_list_all n [] out = ap (λ x. (done, x)) (sym (append-nil out))
write_list_all n (one ∷ bs) out =
    write_list_all (suc n) bs (out ++ one ∷ [])
    ∙ ap (λ x. (done, x)) (append_assoc out (one ∷ []) bs)

-- A round of the server towards the client.
answer_inv :
    (fn : LinkBoxRwFn) (got : Option ℕ) (lb lb' : LinkBox) (pkts : List Bytes)
    → lb.link_write_fn ≡ some fn
    → read_link_box_to_writer got (λ _. true) lb [] ≡ (done, lb', pkts)
    → ((fn lb.link_reader).0 ≡ ok pkts) × (lb'.link_reader ≡ (fn lb.link_reader).1)
unfolding read_link_box_to_writer
answer_inv fn got lb lb' pkts f e = by_result (fn lb.link_reader).0 refl
  where
    by_result :
        (r : Result (List Bytes))
        → (fn lb.link_reader).0 ≡ r
        → ((fn lb.link_reader).0 ≡ ok pkts) × (lb'.link_reader ≡ (fn lb.link_reader).1)
    by_result (ok bs) h = ground (arith, write_list_all 0 bs [])
    by_result (err x) h = ground arith
    by_result panic h = ground arith
    by_result stuck h = ground arith

module _ {g : Gcm} {json : Json} (laws : GcmLaws g) (jlaws : JsonLaws json)
    (to_bytes : Data json.J → Option Bytes) (decodes : (b : Bytes) → to_bytes (bytes b) ≡ some b)
    (skip : ℕ → Bool) (off : (n : ℕ) → skip n ≡ false) (got : Option ℕ) (size : ℕ) where
  -- The server's link box reads `b` of the other side, of at most `size` bytes, and its writes to
  -- the client succeed: the packets, which together hold fewer than 2 ^ 64 bytes. Then the client's
  -- ReadCMsg takes them for one message, whatever bytes follow them, and leaves those unread; the
  -- callback writes exactly `b` to the connection that is copied; and the server has `b` no longer
  -- to read.
  pub link_answers :
      (k : Key) (draw n : ℕ) (lb lb' : LinkBox) (pkts : List Bytes) (more : Bytes) (lc : LinkClient)
      → lb.link_write_fn ≡ some (vpn_write_fn g json k (some n) size draw)
      → read_link_box_to_writer (some n) (λ _. true) lb [] ≡ (done, lb', pkts)
      → length (concat pkts) < 2 ^ 64
      → let b = take (min n size) lb.link_reader in
        let r = read_c_msg g json k skip (concat pkts ++ more) in
        (m : ConnMsg (Data json.J)) × (r.result ≡ ok m)
        × (r.rest ≡ more)
        × (on_copy_msg g json to_bytes true m lc
            ≡ some (record lc { copy_written = lc.copy_written ++ b ∷ [] }))
        × (b ++ lb'.link_reader ≡ lb.link_reader)
  unfolding vpn_write_fn read_some on_copy_msg check check_conn_msg_header_and_code
  link_answers k draw n lb lb' pkts more lc f e small =
      let b = take (min n size) lb.link_reader in
      let (made, left) =
        answer_inv (vpn_write_fn g json k (some n) size draw) (some n) lb lb' pkts f e in
      let back =
        read_c_msg-set_msg laws jlaws k skip off draw "ConnVPNA2" "" (pos 200) (bytes b) pkts more
          tt made small in
      (
        record { header = "ConnVPNA2"; code = pos 200; payload = bytes b; id = "" },
        ap (λ x. x.result) back,
        ap (λ x. x.rest) back,
        rw (decodes b) refl,
        rw left (take-append-drop (min n size) lb.link_reader),
      )
