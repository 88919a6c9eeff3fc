-- ===== src/Client/Boxes/Talking.antt =====
-- Messages from one sub box to another, directly and through the server's link box.
use go_cfc.Base.{
  ℕ, zero, suc, ◌≤◌, ◌<◌, ◌^◌, ◌≡◌, refl, sym, ap, ◌∙◌, subst, Bool, true, false, none, List, [],
  ◌∷◌, ◌++◌, String, Bytes, length, concat, arith,
}
use go_cfc.Base.Int.{ℤ}
use mathlib.Core.List.{append_assoc, append-nil}
use go_cfc.Wire.Errors.{Result, ok, err, panic, stuck}
use go_cfc.Wire.Cipher.{Gcm, GcmLaws}
use go_cfc.Wire.Message.{ConnMsg, Json, JsonLaws, Data, Key, set_msg}
use go_cfc.Wire.Message.RoundTrip.{IsPlain, read_c_msg-set_msg}
use go_cfc.Client.State.{SubBox}
use go_cfc.Base.Lists.{concat-append, length-concat}
use go_cfc.Client.Boxes.Messages.{
  read_c_msg_cb, hear, msg, Writes, writes, all_written, write_sub_c_msg_inv, read_end,
}
use go_cfc.LinkBox.{LinkBox}
use go_cfc.LinkBox.Copying.{Rounds, link_box_copies}

module _ {g : Gcm} {json : Json} (laws : GcmLaws g) (jlaws : JsonLaws json) {T : Type 0}
    (fn : ConnMsg (Data json.J) → T → Result Bool × T) where
  -- One message, and the messages after it.
  one_message :
      (fuel draw : ℕ) (k : Key) (header id : String) (code : ℤ) (d : Data json.J)
      (pkts : List Bytes) (more : Bytes) (t : T) (ms : List (ConnMsg (Data json.J)))
      → IsPlain json d
      → set_msg g json k draw header id code d ≡ ok pkts
      → length (concat pkts) < 2 ^ 64
      → ((t' : T) → read_c_msg_cb g json fn fuel k more t' ≡ hear g json fn ms t')
      → read_c_msg_cb g json fn (suc fuel) k (concat pkts ++ more) t
        ≡ hear g json fn (msg header id code d ∷ ms) t
  unfolding read_c_msg_cb
  one_message fuel draw k header id code d pkts more t ms plain made small rest =
      ap
        (λ r. elim r.result as (λ _. Result (Unit {0}) × T) [
          | ok m ↦
              let (go, t') = fn m t in
              elim go as (λ _. Result (Unit {0}) × T) [
                | ok true ↦ read_c_msg_cb g json fn fuel k r.rest t'
                | ok false ↦ (ok tt, t')
                | err e ↦ (err e, t')
                | panic ↦ (panic, t')
                | stuck ↦ (stuck, t')
              ]
          | err e ↦ (err e, t)
          | panic ↦ (panic, t)
          | stuck ↦ (stuck, t)
        ])
        (read_c_msg-set_msg laws jlaws k (λ _. false) (λ _. refl) draw header id code d pkts more
          plain made small)
      ∙ by_answer (fn (msg header id code d) t).0 (fn (msg header id code d) t).1
    where
      by_answer :
          (go : Result Bool) (t' : T)
          → (elim go as (λ _. Result (Unit {0}) × T) [
            | ok true ↦ read_c_msg_cb g json fn fuel k more t'
            | ok false ↦ (ok tt, t')
            | err e ↦ (err e, t')
            | panic ↦ (panic, t')
            | stuck ↦ (stuck, t')
          ])
            ≡ (elim go as (λ _. Result (Unit {0}) × T) [
              | ok true ↦ hear g json fn ms t'
              | ok false ↦ (ok tt, t')
              | err e ↦ (err e, t')
              | panic ↦ (panic, t')
              | stuck ↦ (stuck, t')
            ])
      by_answer (ok true) t' = rest t'
      by_answer (ok false) t' = refl
      by_answer (err e) t' = refl
      by_answer panic t' = refl
      by_answer stuck t' = refl

  after_message :
      (fuel draw : ℕ) (k k1 : Key) (header id : String) (code : ℤ) (d : Data json.J)
      (pkts sent : List Bytes) (t : T) (ms : List (ConnMsg (Data json.J)))
      → IsPlain json d
      → set_msg g json k draw header id code d ≡ ok pkts
      → k1 ≡ k
      → length (concat (pkts ++ sent)) < 2 ^ 64
      → suc (length ms) ≤ fuel
      → ((f : ℕ) (t' : T)
          → length (concat sent) < 2 ^ 64
          → length ms ≤ f
          → read_c_msg_cb g json fn (suc f) k1 (concat sent) t' ≡ hear g json fn ms t')
      → read_c_msg_cb g json fn (suc fuel) k (concat (pkts ++ sent)) t
        ≡ hear g json fn (msg header id code d ∷ ms) t
  after_message zero draw k k1 header id code d pkts sent t ms plain made same small le rest =
      absurd (omega arith)
  after_message (suc f) draw k k1 header id code d pkts sent t ms plain made same small le rest =
      let whole = length-concat pkts sent in
      ap (λ s. read_c_msg_cb g json fn (suc (suc f)) k s t) (concat-append pkts sent)
      ∙ one_message (suc f) draw k header id code d pkts (concat sent) t ms plain made (omega arith)
          (λ t'.
            subst (λ x. read_c_msg_cb g json fn (suc f) x (concat sent) t' ≡ hear g json fn ms t')
              same (rest f t' (omega arith) (omega arith)))

  heard :
      (c c' : SubBox) (ms : List (ConnMsg (Data json.J)))
      → Writes g json c ms c'
      → (sent : List Bytes) × (c'.written ≡ c.written ++ sent)
        × ((fuel : ℕ) (t : T)
            → length (concat sent) < 2 ^ 64
            → length ms ≤ fuel
            → read_c_msg_cb g json fn (suc fuel) c.key (concat sent) t ≡ hear g json fn ms t)
  unfolding read_c_msg_cb
  heard c _ _ (all_written _) = (
    [],
    sym (append-nil c.written),
    λ fuel t small le. rw (read_end g json c.key, read_c_msg_cb) refl,
  )
  heard c c' _ (writes accepts now draw header id code d ms _ c1 _ plain e w) =
      let (pkts, made, l) = write_sub_c_msg_inv g json accepts now draw header id code d c c1 e in
      let (sent, log, rest) = heard c1 c' ms w in
      (
        pkts ++ sent,
        log ∙ ap (λ x. x ++ sent) l.log ∙ append_assoc c.written pkts sent,
        λ fuel t small le.
            after_message fuel draw c.key c1.key header id code d pkts sent t ms plain made
              l.same_key small le rest,
      )

  -- A sub box that has written nothing writes messages one after the other, and the writes succeed;
  -- their packets hold fewer than 2 ^ 64 bytes in all, and no data has the tag. The other side has
  -- its key, and reads these bytes and then the end. Then ReadCMsgCb, with fuel for one message more,
  -- calls its callback with exactly these messages, in their order, until the callback fails or
  -- says to stop; and if it never does, ReadCMsgCb returns the error at the end.
  pub read_c_msg_cb-write_sub_c_msg :
      (c c' : SubBox) (ms : List (ConnMsg (Data json.J))) (t : T)
      → Writes g json c ms c'
      → c.written ≡ []
      → length (concat c'.written) < 2 ^ 64
      → read_c_msg_cb g json fn (suc (length ms)) c.key (concat c'.written) t ≡ hear g json fn ms t
  read_c_msg_cb-write_sub_c_msg c c' ms t w new small =
      let (sent, log, rest) = heard c c' ms w in
      let all : c'.written ≡ sent = log ∙ ap (λ x. x ++ sent) new in
      ap (λ x. read_c_msg_cb g json fn (suc (length ms)) c.key (concat x) t) all
      ∙ rest (length ms) t (subst (λ x. length (concat x) < 2 ^ 64) all small) (omega arith)

  -- Two sub boxes whose connections the server has linked by a box without functions. One that has
  -- written nothing writes messages, and the writes succeed; their packets hold fewer than 2 ^ 64
  -- bytes in all, and no data has the tag. The server's box copies in rounds of any sizes that
  -- return nil, in both directions, until nothing of that is unread, to a connection to which
  -- nothing was written. The other sub box has the key, and reads what came, and then the end. Its
  -- ReadCMsgCb calls the callback with exactly these messages, in their order, until the callback
  -- fails or says to stop; and if it never does, ReadCMsgCb returns the error at the end.
  pub sub_boxes_talk :
      (c c' : SubBox) (ms : List (ConnMsg (Data json.J))) (lb lb' : LinkBox) (out out' : List Bytes)
      (t : T)
      → Writes g json c ms c'
      → c.written ≡ []
      → length (concat c'.written) < 2 ^ 64
      → lb.link_read_fn ≡ none
      → lb.link_write_fn ≡ none
      → lb.link_written ≡ []
      → Rounds lb (concat c'.written) out lb' [] out'
      → read_c_msg_cb g json fn (suc (length ms)) c.key (concat lb'.link_written) t
        ≡ hear g json fn ms t
  sub_boxes_talk c c' ms lb lb' out out' t w new small no_read no_write unused rounds =
      let (_, through) =
        link_box_copies lb lb' (concat c'.written) [] out out' no_read no_write rounds in
      let same : concat lb'.link_written ≡ concat c'.written =
        sym (append-nil (concat lb'.link_written))
        ∙ through
        ∙ ap (λ x. concat x ++ concat c'.written) unused in
      ap (λ x. read_c_msg_cb g json fn (suc (length ms)) c.key x t) same
      ∙ read_c_msg_cb-write_sub_c_msg c c' ms t w new small
