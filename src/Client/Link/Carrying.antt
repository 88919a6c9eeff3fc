-- ===== src/Client/Link/Carrying.antt =====
-- What a client sends through the proxy server against what the server makes of it.
use go_cfc.Base.{
  ℕ, zero, suc, ◌<◌, ◌^◌, ◌≡◌, refl, sym, ap, ◌∙◌, subst, Bool, true, false, Option, none, some,
  List, [], ◌∷◌, ◌++◌, Bytes, length, concat, arith, Bool-cases, inl, inr,
}
use go_cfc.Base.Int.{pos}
use go_cfc.Base.Lists.{concat-append, length-concat}
use mathlib.Core.List.{append_assoc, append-nil}
use go_cfc.Wire.Errors.{Result, ok, err, panic, stuck}
use go_cfc.Wire.Cipher.{Gcm, GcmLaws}
use go_cfc.Wire.Message.{Json, JsonLaws, Data, bytes, Key, set_msg, check_conn_msg_header_and_code}
use go_cfc.Wire.Message.RoundTrip.{read_c_msg-set_msg}
use go_cfc.LinkBox.{
  LinkBox, LinkBoxRwFn, Copied, done, failed, crashed, write_list, writes,
  write_link_box_from_reader,
}
use go_cfc.Server.Tunnel.{link_payload, vpn_read_fn}
use go_cfc.Speed.{set}
use go_cfc.Client.Errors.{ClientError}
use go_cfc.Client.Link.{LinkClient}
use go_cfc.Client.Link.Sending.{write_packets, write_from_copy_conn}

-- Rounds of the server, whose writes to the other side succeed, each with what the client sent
-- still unread: the first round that fails ends them.
abbrev pub rounds : (got : Option ℕ) (size : ℕ) → ℕ → Bytes → LinkBox → Copied × LinkBox × Bytes
rounds got size zero s lb = (done, lb, s)
rounds got size (suc n) s lb =
    let (c, lb1, s1) = write_link_box_from_reader got (λ _. true) size s lb in
    elim c as (λ _. Copied × LinkBox × Bytes) [
      | done ↦ rounds got size n s1 lb1
      | failed ↦ (failed, lb1, s1)
      | crashed ↦ (crashed, lb1, s1)
    ]

-- The client writes the pieces one after the other, and every write succeeds.
pub data Sends (g : Gcm) (json : Json) : LinkClient → List Bytes → LinkClient → Type 0 where
  sent_all : (lc : LinkClient) → Sends g json lc [] lc
  sends :
      (accepts : ℕ → Bool) (now draw : ℕ) (b : Bytes) (bs : List Bytes) (lc lc1 lc2 : LinkClient)
      → write_from_copy_conn g json accepts now draw b lc ≡ some (none, lc1)
      → Sends g json lc1 bs lc2
      → Sends g json lc (b ∷ bs) lc2

-- After packets that were all written.
record Written (lc : LinkClient) (bs : List Bytes) (lc' : LinkClient) : Type 0 where
  pub log : lc'.link_written ≡ lc.link_written ++ bs
  pub same_key : lc'.proxy_key ≡ lc.proxy_key

write_packets_lem :
    (accepts : ℕ → Bool) (now : ℕ) (bs : List Bytes) (lc lc' : LinkClient)
    → write_packets accepts now bs lc ≡ (none, lc')
    → Written lc bs lc'
unfolding write_packets
write_packets_lem accepts now [] lc lc' e =
    subst (Written lc []) (ap (λ p. p.1) e)
      (record { log = sym (append-nil lc.link_written); same_key = refl })
write_packets_lem accepts now (one ∷ bs) lc lc' e =
    elim (Bool-cases (accepts (length lc.link_written))) [
      | inr stop ↦ let no : ⊥ = ground arith in absurd no
      | inl go ↦
          let lc1 = record lc {
            link_written = lc.link_written ++ one ∷ [];
            proxy_speed = record lc.proxy_speed {
              upload = set now (length one) lc.proxy_speed.upload;
            };
          } in
          let w = write_packets_lem accepts now bs lc1 lc' (rw (go, write_packets) at e) in
          record { log = w.log ∙ append_assoc lc.link_written (one ∷ []) bs; same_key = w.same_key }
    ]

write_inv :
    (g : Gcm) (json : Json) (accepts : ℕ → Bool) (now draw : ℕ) (b : Bytes) (lc lc' : LinkClient)
    → write_from_copy_conn g json accepts now draw b lc ≡ some (none, lc')
    → (pkts : List Bytes) × (set_msg g json lc.proxy_key draw "ConnVPNQ2" "" (pos 200) (bytes b)
        ≡ ok pkts)
      × Written lc pkts lc'
unfolding write_from_copy_conn
write_inv g json accepts now draw b lc lc' e =
    by_result (set_msg g json lc.proxy_key draw "ConnVPNQ2" "" (pos 200) (bytes b)) refl e
  where
    by_result :
        (r : Result (List Bytes))
        → set_msg g json lc.proxy_key draw "ConnVPNQ2" "" (pos 200) (bytes b) ≡ r
        → (elim r as (λ _. Option (Option ClientError × LinkClient)) [
          | ok bs ↦ some (write_packets accepts now bs lc)
          | err _ ↦ none
          | panic ↦ none
          | stuck ↦ none
        ])
          ≡ some (none, lc')
        → (pkts : List Bytes) × (set_msg g json lc.proxy_key draw "ConnVPNQ2" "" (pos 200) (bytes b)
            ≡ ok pkts)
          × Written lc pkts lc'
    by_result (ok pkts) k e = (pkts, k, write_packets_lem accepts now pkts lc lc' cc)
    by_result (err x) k e = cc
    by_result panic k e = cc
    by_result stuck k e = cc

through :
    (got : Option ℕ) (size : ℕ) (fn : LinkBoxRwFn) (s rest b : Bytes) (lb : LinkBox)
    → lb.link_read_fn ≡ some fn
    → fn s ≡ (ok (b ∷ []), rest)
    → write_link_box_from_reader got (λ _. true) size s lb
      ≡ (done, record lb { link_written = lb.link_written ++ b ∷ [] }, rest)
unfolding write_link_box_from_reader writes write_list
through got size fn s rest b lb f e = ground arith

regroup :
    (xs ys : List Bytes) (more : Bytes)
    → concat (xs ++ ys) ++ more ≡ concat xs ++ (concat ys ++ more)
regroup xs ys more =
    ap (λ z. z ++ more) (concat-append xs ys) ∙ append_assoc (concat xs) (concat ys) more

next_round :
    (got : Option ℕ) (size n : ℕ) (s s1 : Bytes) (lb lb1 : LinkBox)
    → write_link_box_from_reader got (λ _. true) size s lb ≡ (done, lb1, s1)
    → rounds got size (suc n) s lb ≡ rounds got size n s1 lb1
next_round got size n s s1 lb lb1 e =
    ap
      (λ q. elim q.0 as (λ _. Copied × LinkBox × Bytes) [
        | done ↦ rounds got size n q.2 q.1
        | failed ↦ (failed, q.1, q.2)
        | crashed ↦ (crashed, q.1, q.2)
      ])
      e

module _ {g : Gcm} {json : Json} (laws : GcmLaws g) (jlaws : JsonLaws json)
    (to_bytes : Data json.J → Option Bytes) (decodes : (b : Bytes) → to_bytes (bytes b) ≡ some b)
    (skip : ℕ → Bool) (off : (n : ℕ) → skip n ≡ false) (got : Option ℕ) (size : ℕ) where
  read_back :
      (k : Key) (draw : ℕ) (b more : Bytes) (pkts : List Bytes)
      → set_msg g json k draw "ConnVPNQ2" "" (pos 200) (bytes b) ≡ ok pkts
      → length (concat pkts) < 2 ^ 64
      → vpn_read_fn g json k to_bytes skip (concat pkts ++ more) ≡ (ok (b ∷ []), more)
  unfolding vpn_read_fn link_payload check_conn_msg_header_and_code
  read_back k draw b more pkts e small =
      rw
        (
          read_c_msg-set_msg laws jlaws k skip off draw "ConnVPNQ2" "" (pos 200) (bytes b) pkts more
              tt e small,
          link_payload,
          decodes b,
        )
        refl

  one_round :
      (k : Key) (draw : ℕ) (b more : Bytes) (pkts : List Bytes) (lb : LinkBox)
      → set_msg g json k draw "ConnVPNQ2" "" (pos 200) (bytes b) ≡ ok pkts
      → length (concat pkts) < 2 ^ 64
      → lb.link_read_fn ≡ some (vpn_read_fn g json k to_bytes skip)
      → write_link_box_from_reader got (λ _. true) size (concat pkts ++ more) lb
        ≡ (done, record lb { link_written = lb.link_written ++ b ∷ [] }, more)
  one_round k draw b more pkts lb e small f =
      through got size _ (concat pkts ++ more) more b lb f (read_back k draw b more pkts e small)

  carried :
      (lc lc' : LinkClient) (pieces : List Bytes)
      → Sends g json lc pieces lc'
      → (sent : List Bytes) × (lc'.link_written ≡ lc.link_written ++ sent)
        × ((more : Bytes) (lb : LinkBox)
            → length (concat sent) < 2 ^ 64
            → lb.link_read_fn ≡ some (vpn_read_fn g json lc.proxy_key to_bytes skip)
            → rounds got size (length pieces) (concat sent ++ more) lb
              ≡ (done, record lb { link_written = lb.link_written ++ pieces }, more))
  carried lc _ _ (sent_all _) = (
    [],
    sym (append-nil lc.link_written),
    λ more lb small f.
        ap (λ x. (done, record lb { link_written = x }, more)) (sym (append-nil lb.link_written)),
  )
  carried lc lc' _ (sends accepts now draw b bs _ lc1 _ e h) =
      let (pkts, made, w) = write_inv g json accepts now draw b lc lc1 e in
      let (sent, log, rest) = carried lc1 lc' bs h in
      (
        pkts ++ sent,
        log ∙ ap (λ x. x ++ sent) w.log ∙ append_assoc lc.link_written pkts sent,
        λ more lb small f.
            let whole = length-concat pkts sent in
            let lb1 = record lb { link_written = lb.link_written ++ b ∷ [] } in
            let first =
              one_round lc.proxy_key draw b (concat sent ++ more) pkts lb made (omega arith) f in
            let others = rest more lb1 (omega arith) (rw w.same_key f) in
            ap (λ x. rounds got size (suc (length bs)) x lb) (regroup pkts sent more)
            ∙ next_round got size (length bs) (concat pkts ++ (concat sent ++ more))
                (concat sent ++ more) lb lb1 first
            ∙ others
            ∙ ap (λ x. (done, record lb { link_written = x }, more))
                (append_assoc lb.link_written (b ∷ []) bs),
      )

  -- The client's key is the server's, and nothing else was written to the link. The pieces are
  -- written to it one after the other, every write succeeds, and the packets together hold fewer
  -- than 2 ^ 64 bytes. Then as many rounds of the server's link box as there are pieces, over what
  -- the client has written, write exactly these pieces to the other side, each as one piece and in
  -- their order, and leave nothing unread.
  pub link_carries_pieces :
      (lc lc' : LinkClient) (pieces : List Bytes) (lb : LinkBox)
      → Sends g json lc pieces lc'
      → lc.link_written ≡ []
      → length (concat lc'.link_written) < 2 ^ 64
      → lb.link_read_fn ≡ some (vpn_read_fn g json lc.proxy_key to_bytes skip)
      → rounds got size (length pieces) (concat lc'.link_written) lb
        ≡ (done, record lb { link_written = lb.link_written ++ pieces }, [])
  link_carries_pieces lc lc' pieces lb h new small f =
      let (sent, log, carry) = carried lc lc' pieces h in
      let all : lc'.link_written ≡ sent = log ∙ ap (λ x. x ++ sent) new in
      ap (λ x. rounds got size (length pieces) x lb)
        (ap concat all ∙ sym (append-nil (concat sent)))
      ∙ carry [] lb (subst (λ x. length (concat x) < 2 ^ 64) all small) f
