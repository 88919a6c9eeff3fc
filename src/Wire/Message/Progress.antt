-- ===== src/Wire/Message/Progress.antt =====
-- ReadCMsg on any bytes: the loop ends, and what it consumes is what it reports.
use go_cfc.Base.{
  ℕ, zero, suc, ◌+◌, ◌≤◌, ◌<◌, ◌≡◌, ◌≢◌, refl, ◌∙◌, Bool, List, [], ◌∷◌, ◌++◌, arith, Bytes, length,
  drop,
}
use go_cfc.Base.Lists.{length-drop, drop-drop, sum, sum-append}
use go_cfc.Wire.Errors.{Result, Error, ok, err, panic, stuck, ◌>>=◌}
use go_cfc.Wire.Cipher.{Gcm, decrypt}
use go_cfc.Wire.Packet.{Packet, wait, last, read_c_packet}
use go_cfc.Wire.Packet.Acceptance.{length-content, read_c_packet-no_fault}
use go_cfc.Wire.Message.{
  Json, Key, Reading, read_packets, must_base64_to_bytes, untag, decode, finish_msg, read_c_msg,
}

-- The reader stands `d` bytes further, and `d` is what was added to the reports.
pub record Consumed (A : Type 0) (s : Bytes) (speed : List ℕ) (r : Reading A) : Type 0 where
  pub amount : ℕ
  pub within : amount ≤ length s
  pub left : r.rest ≡ drop amount s
  pub reported : sum r.speed ≡ sum speed + amount

-- No packet was accepted: nothing is consumed.
stays :
    {A : Type 0} (s : Bytes) (speed : List ℕ) (x : Result A)
    → Consumed A s speed (record { result = x; rest = s; speed = speed })
unfolding drop
stays s speed x = record { amount = 0; within = omega arith; left = refl; reported = omega arith }

-- What holds of the loop from any point on.
abbrev Ends : Bytes → List ℕ → Reading Bytes → Type 0
Ends s speed r = (r.result ≢ stuck) × (r.result ≢ panic) × Consumed Bytes s speed r

-- Going on after a packet of `d` bytes.
Ends-drop :
    (d : ℕ) (s : Bytes) (speed : List ℕ) (r : Reading Bytes)
    → d ≤ length s
    → Ends (drop d s) (speed ++ d ∷ []) r
    → Ends s speed r
Ends-drop d s speed r h (a, b, c) = (
  a,
  b,
  record {
    amount = d + c.amount;
    within = omega (arith, c.within, length-drop d s);
    left = c.left ∙ drop-drop d c.amount s;
    reported = omega (arith, c.reported, sum-append speed (d ∷ []));
  },
)

module _ (g : Gcm) (k : Key) (skip : ℕ → Bool) where
  module _ (fuel n : ℕ) (s b : Bytes) (speed : List ℕ) where
    after_wait :
        (b0 : Bytes)
        → read_c_packet g k.key_b (skip n) s ≡ ok (wait b0)
        → 92 + length b0 ≤ length s
        → read_packets g k (suc fuel) skip n s b speed
          ≡ read_packets g k fuel skip
              (suc n)
              (drop (92 + length b0) s)
              (b ++ b0)
              (speed ++ (92 + length b0) ∷ [])
    unfolding read_packets
    after_wait b0 e h = ground arith

    after_last :
        (b0 : Bytes)
        → read_c_packet g k.key_b (skip n) s ≡ ok (last b0)
        → 92 + length b0 ≤ length s
        → read_packets g k (suc fuel) skip n s b speed ≡ record {
          result = ok (b ++ b0);
          rest = drop (92 + length b0) s;
          speed = speed ++ (92 + length b0) ∷ [];
        }
    unfolding read_packets
    after_last b0 e h = ground arith

    after_err :
        (x : Error)
        → read_c_packet g k.key_b (skip n) s ≡ err x
        → read_packets g k (suc fuel) skip n s b speed
          ≡ record { result = err x; rest = s; speed = speed }
    unfolding read_packets
    after_err x e = ground arith

  read_packets_total :
      (fuel n : ℕ) (s b : Bytes) (speed : List ℕ)
      → length s < fuel
      → Ends s speed (read_packets g k fuel skip n s b speed)
  read_packets_total zero n s b speed h = absurd (omega arith)
  read_packets_total (suc fuel) n s b speed h =
      by_packet (read_c_packet g k.key_b (skip n) s) refl
        (λ d. read_packets_total fuel (suc n) (drop d s))
    where
      by_packet :
          (o : Result Packet)
          → read_c_packet g k.key_b (skip n) s ≡ o
          → ((d : ℕ) (b' : Bytes) (speed' : List ℕ)
              → length (drop d s) < fuel
              → Ends (drop d s) speed' (read_packets g k fuel skip (suc n) (drop d s) b' speed'))
          → Ends s speed (read_packets g k (suc fuel) skip n s b speed)
      by_packet (ok (wait b0)) e ih =
          let fits = length-content g k.key_b (skip n) s (wait b0) e in
          rw (after_wait fuel n s b speed b0 e fits) (
            Ends-drop (92 + length b0) s speed _ fits
              (ih (92 + length b0) _ _ (omega (arith, length-drop (92 + length b0) s))))
      by_packet (ok (last b0)) e ih =
          let fits = length-content g k.key_b (skip n) s (last b0) e in
          rw (after_last fuel n s b speed b0 e fits) (
            (λ q. cc),
            (λ q. cc),
            record {
              amount = 92 + length b0;
              within = fits;
              left = refl;
              reported = omega (arith, sum-append speed ((92 + length b0) ∷ []));
            },
          )
      by_packet (err x) e ih =
          rw (after_err fuel n s b speed x e) ((λ q. cc), (λ q. cc), stays s speed (err x))
      by_packet panic e ih = absurd ((read_c_packet-no_fault g k.key_b (skip n) s).1 e)
      by_packet stuck e ih = absurd ((read_c_packet-no_fault g k.key_b (skip n) s).0 e)

module _ (g : Gcm) (json : Json) (k : Key) where
  finish_msg-ne-stuck : (b : Bytes) → finish_msg g json k b ≢ stuck
  unfolding finish_msg decode untag must_base64_to_bytes decrypt
  finish_msg-ne-stuck b = ground arith

  bind-ne-stuck :
      {A B : Type 0} (m : Result A) (f : A → Result B)
      → m ≢ stuck
      → ((a : A) → f a ≢ stuck)
      → (m >>= f) ≢ stuck
  bind-ne-stuck (ok a) f h hf = hf a
  bind-ne-stuck (err e) f h hf = λ q. cc
  bind-ne-stuck panic f h hf = λ q. cc
  bind-ne-stuck stuck f h hf = λ q. h refl

  -- ReadCMsg ends on every input, whatever the flag: its loop never runs out of fuel. The reader
  -- then stands as many bytes further as the reported sizes add up to, which all were there.
  pub read_c_msg_total :
      (skip : ℕ → Bool) (s : Bytes)
      → let r = read_c_msg g json k skip s in
        (r.result ≢ stuck) × (r.rest ≡ drop (sum r.speed) s) × (sum r.speed ≤ length s)
  unfolding read_c_msg
  read_c_msg_total skip s =
      let (a, _, c) = read_packets_total g k skip (suc (length s)) 0 s [] [] (omega arith) in
      let total : sum (read_packets g k (suc (length s)) skip 0 s [] []).speed ≡ c.amount =
        omega (arith, c.reported) in
      (
        bind-ne-stuck _ (finish_msg g json k) a (finish_msg-ne-stuck),
        rw total c.left,
        omega (arith, c.within, total),
      )
