-- ===== src/Client/Boxes/Messages.antt =====
-- Messages over sub boxes: ReadCMsgCb of client/client_sub.go, against WriteCMsg of the other side.
use go_cfc.Base.{
  ℕ, zero, suc, ◌≡◌, refl, sym, ap, ◌∙◌, subst, Bool, true, false, Option, none, some, List, [],
  ◌∷◌, ◌++◌, String, Bytes, arith, Bool-cases, Option-cases, inl, inr,
}
use go_cfc.Base.Int.{ℤ}
use mathlib.Core.List.{append_assoc, append-nil}
use go_cfc.Wire.Errors.{Result, ok, err, panic, stuck, eof}
use go_cfc.Wire.Cipher.{Gcm}
use go_cfc.Wire.Message.{ConnMsg, Json, Data, Key, set_msg, read_c_msg, read_packets}
use go_cfc.Wire.Packet.{read_c_packet, peek}
use go_cfc.Wire.Message.RoundTrip.{IsPlain}
use go_cfc.Client.Errors.{ClientError}
use go_cfc.Client.State.{SubBox}
use go_cfc.Client.Boxes.{write_sub, write_queue_bytes, write_sub_c_msg}

module _ (g : Gcm) (json : Json) {T : Type 0}
    (fn : ConnMsg (Data json.J) → T → Result Bool × T) where
  -- ReadCMsgCb, where `s` is what is read of the connection until its end, and `fn` works on a state.
  -- There is fuel for as many messages.
  unfoldable pub read_c_msg_cb : ℕ → Key → Bytes → T → Result (Unit {0}) × T
  read_c_msg_cb zero k s t = (stuck, t)
  read_c_msg_cb (suc fuel) k s t =
      let r = read_c_msg g json k (λ _. false) s in
      elim r.result [
        | ok m ↦
            let (go, t') = fn m t in
            elim go [
              | ok true ↦ read_c_msg_cb fuel k r.rest t'
              | ok false ↦ (ok tt, t')
              | err e ↦ (err e, t')
              | panic ↦ (panic, t')
              | stuck ↦ (stuck, t')
            ]
        | err e ↦ (err e, t)
        | panic ↦ (panic, t)
        | stuck ↦ (stuck, t)
      ]

  -- The callback, called with one message after the other until it says otherwise; `eof` ends them.
  abbrev pub hear : List (ConnMsg (Data json.J)) → T → Result (Unit {0}) × T
  hear [] t = (err eof, t)
  hear (m ∷ ms) t =
      let (go, t') = fn m t in
      elim go as (λ _. Result (Unit {0}) × T) [
        | ok true ↦ hear ms t'
        | ok false ↦ (ok tt, t')
        | err e ↦ (err e, t')
        | panic ↦ (panic, t')
        | stuck ↦ (stuck, t')
      ]

abbrev pub msg : {J : Type 0} → (header id : String) → ℤ → Data J → ConnMsg (Data J)
msg header id code d = record { header = header; code = code; payload = d; id = id }

-- WriteCMsg of one message after the other, whose writes succeed.
pub data Writes (g : Gcm) (json : Json)
    : SubBox → List (ConnMsg (Data json.J)) → SubBox → Type 0 where
  all_written : (c : SubBox) → Writes g json c [] c
  writes :
      (accepts : ℕ → Bool) (now draw : ℕ) (header id : String) (code : ℤ) (d : Data json.J)
      (ms : List (ConnMsg (Data json.J))) (c c1 c2 : SubBox)
      → IsPlain json d
      → write_sub_c_msg g json accepts now draw header id code d c ≡ some (none, c1)
      → Writes g json c1 ms c2
      → Writes g json c (msg header id code d ∷ ms) c2

pub record Logged (c : SubBox) (bs : List Bytes) (c' : SubBox) : Type 0 where
  pub log : c'.written ≡ c.written ++ bs
  pub same_key : c'.key ≡ c.key

-- One write of a sub box that succeeds.
write_sub_inv :
    (accepts : Bool) (now : ℕ) (b : Bytes) (c c' : SubBox)
    → write_sub accepts now b c ≡ (none, c')
    → Logged c (b ∷ []) c'
unfolding write_sub
write_sub_inv accepts now b c c' e = elim (Bool-cases c.disable) [
  | inl h ↦ let no : ⊥ = ground arith in absurd no
  | inr h ↦ elim (Bool-cases accepts) [
    | inr k ↦ let no : ⊥ = ground arith in absurd no
    | inl k ↦ record { log = ground arith; same_key = ground arith }
  ]
]

write_queue_bytes_inv :
    (accepts : ℕ → Bool) (now : ℕ) (bs : List Bytes) (c c' : SubBox)
    → write_queue_bytes accepts now bs c ≡ (none, c')
    → Logged c bs c'
unfolding write_queue_bytes
write_queue_bytes_inv accepts now [] c c' e =
    subst (Logged c []) (ap (λ p. p.1) e)
      (record { log = sym (append-nil c.written); same_key = refl })
write_queue_bytes_inv accepts now (one ∷ bs) c c' e =
    let p = write_sub (accepts c.writes) now one c in
    elim (Option-cases p.0) [
      | inr (x, h) ↦ let e' = rw (h, write_queue_bytes) at e in cc
      | inl h ↦
          let a = write_sub_inv (accepts c.writes) now one c p.1 (ap (λ x. (x, p.1)) h) in
          let b = write_queue_bytes_inv accepts now bs p.1 c' (rw (h, write_queue_bytes) at e) in
          record {
            log = b.log ∙ ap (λ x. x ++ bs) a.log ∙ append_assoc c.written (one ∷ []) bs;
            same_key = b.same_key ∙ a.same_key;
          }
    ]

pub write_sub_c_msg_inv :
    (g : Gcm) (json : Json) (accepts : ℕ → Bool) (now draw : ℕ) (header id : String) (code : ℤ)
    (d : Data json.J) (c c' : SubBox)
    → write_sub_c_msg g json accepts now draw header id code d c ≡ some (none, c')
    → (pkts : List Bytes) × (set_msg g json c.key draw header id code d ≡ ok pkts)
      × Logged c pkts c'
unfolding write_sub_c_msg
write_sub_c_msg_inv g json accepts now draw header id code d c c' e =
    by_result (set_msg g json c.key draw header id code d) refl e
  where
    by_result :
        (r : Result (List Bytes))
        → set_msg g json c.key draw header id code d ≡ r
        → (elim r as (λ _. Option (Option ClientError × SubBox)) [
          | ok parts ↦ some (write_queue_bytes accepts now parts c)
          | err _ ↦ none
          | panic ↦ none
          | stuck ↦ none
        ])
          ≡ some (none, c')
        → (pkts : List Bytes) × (set_msg g json c.key draw header id code d ≡ ok pkts)
          × Logged c pkts c'
    by_result (ok pkts) k e = (pkts, k, write_queue_bytes_inv accepts now pkts c c' cc)
    by_result (err x) k e = cc
    by_result panic k e = cc
    by_result stuck k e = cc

pub read_end :
    (g : Gcm) (json : Json) (k : Key) → (read_c_msg g json k (λ _. false) []).result ≡ err eof
unfolding read_c_msg read_packets read_c_packet peek
read_end g json k = refl
