-- ===== src/Client/Up2p/Handshake.antt =====
-- What comes of the handshake of handshakeUP2P.
use go_cfc.Base.{
  ℕ, zero, suc, ◌+◌, ◌-◌, ◌≤◌, ◌<◌, ◌≡◌, refl, ap, ◌∙◌, Bool, true, false, Option, none, some, List,
  [], ◌∷◌, ◌++◌, String, Bytes, ◌&&◌, arith, if◌then◌else◌, str_eq,
}
use go_cfc.Wire.Cipher.{same_bytes}
use go_cfc.Task.{timed_out}
use go_cfc.Client.Errors.{ClientError, task}
use go_cfc.Client.Up2p.{
  Event, packet, tick, Shook, shaking, over, next_round, on_event, shake_loop, handshake_up2p,
}

module _ (addr : String) (kid : Bytes) where
  abbrev pub is_from_peer : String → Bytes → Bool
  is_from_peer from b = str_eq from addr && same_bytes b kid

  -- Events with `n` rounds, whose writes succeed, and without the packet of the other side while
  -- it is waited for.
  pub data Waits (awaited : Bool) : ℕ → List Event → Type 0 where
    no_more : Waits awaited 0 []
    round : (n : ℕ) (es : List Event) → Waits awaited n es → Waits awaited (suc n) (tick true ∷ es)
    ignored :
        (n : ℕ) (es : List Event) (from : String) (b : Bytes)
        → awaited && is_from_peer from b ≡ false
        → Waits awaited n es
        → Waits awaited n (packet from b ∷ es)

  at_round : (left : ℕ) (timeout : Bool) (wrote : ℕ) → Shook
  at_round left timeout wrote = shaking (record { left = left; timeout = timeout; wrote = wrote })

  over_stays :
      (es : List Event) (e : Option ClientError) (n : ℕ)
      → shake_loop addr kid es (over e n) ≡ over e n
  unfolding shake_loop
  over_stays [] e n = refl
  over_stays (_ ∷ es) e n = refl

  goes_on :
      (t : Bool) (n m left wrote : ℕ) (es fs : List Event)
      → Waits t n es
      → left ≡ n + suc m
      → shake_loop addr kid (es ++ fs) (at_round left t wrote)
        ≡ shake_loop addr kid fs (at_round (suc m) t (wrote + n))
  unfolding shake_loop on_event next_round at_round
  goes_on t _ m left wrote _ fs no_more h = ap (λ x. shake_loop addr kid fs x) (ground arith)
  goes_on t _ m zero wrote _ fs (round n es w) h = absurd (omega arith)
  goes_on t _ m (suc zero) wrote _ fs (round n es w) h = absurd (omega arith)
  goes_on t _ m (suc (suc left)) wrote _ fs (round n es w) h =
      goes_on t n m (suc left) (suc wrote) es fs w (omega arith)
      ∙ ap (λ x. shake_loop addr kid fs (at_round (suc m) t x)) (omega arith)
  goes_on t _ m left wrote _ fs (ignored n es from b k w) h =
      rw (k, on_event) (goes_on t n m left wrote es fs w h)

  ends :
      (t : Bool) (n left wrote : ℕ) (es : List Event)
      → Waits t n es
      → n ≡ left
      → 0 < n
      → shake_loop addr kid es (at_round left t wrote)
        ≡ over (if t then some (task timed_out) else none) (wrote + n)
  unfolding shake_loop on_event next_round at_round
  ends t _ left wrote _ no_more h pos = absurd (omega arith)
  ends t _ zero wrote _ (round n es w) h pos = absurd (omega arith)
  ends t _ (suc zero) wrote _ (round n es w) h pos =
      over_stays es _ (suc wrote)
      ∙ ap (λ x. over (if t then some (task timed_out) else none) x) (omega arith)
  ends t _ (suc (suc left)) wrote _ (round n es w) h pos =
      ends t n (suc left) (suc wrote) es w (omega arith) (omega arith)
      ∙ ap (λ x. over (if t then some (task timed_out) else none) x) (omega arith)
  ends t _ left wrote _ (ignored n es from b k w) h pos =
      rw (k, on_event) (ends t n left wrote es w h pos)

  -- The writes of the handshake succeed. When the packet of the other side does not come in three
  -- rounds, the handshake fails after its three writes. When it comes after at most two rounds, the
  -- handshake succeeds after two writes in all, those before the packet and those after it,
  -- whatever packets come after it.
  pub handshake_up2p_lem :
      (n : ℕ) (es fs : List Event) (from : String) (b : Bytes)
      → is_from_peer from b ≡ true
      → n ≤ 2
      → (Waits true 3 es → handshake_up2p addr kid es ≡ over (some (task timed_out)) 3)
        × (Waits true n es
            → Waits false (2 - n) fs
            → handshake_up2p addr kid (es ++ packet from b ∷ fs) ≡ over none 2)
  unfolding handshake_up2p shake_loop on_event next_round at_round
  handshake_up2p_lem n es fs from b h le = (
    λ w. ends true 3 3 0 es w refl (omega arith),
    λ w v.
        goes_on true n (2 - n) 3 0 es (packet from b ∷ fs) w (omega arith)
        ∙ ap (λ x. shake_loop addr kid (packet from b ∷ fs) (at_round (suc (2 - n)) true x))
            (omega arith)
        ∙ heard n fs from b h le v,
  )
    where
      heard :
          (n : ℕ) (fs : List Event) (from : String) (b : Bytes)
          → is_from_peer from b ≡ true
          → n ≤ 2
          → Waits false (2 - n) fs
          → shake_loop addr kid (packet from b ∷ fs) (at_round (suc (2 - n)) true n) ≡ over none 2
      heard zero fs from b h le v = rw (h, on_event) (ends false 2 2 0 fs v refl (omega arith))
      heard (suc zero) fs from b h le v =
          rw (h, on_event) (ends false 1 1 1 fs v refl (omega arith))
      heard (suc (suc zero)) fs from b h le v = rw (h, on_event) (over_stays fs none 2)
      heard (suc (suc (suc n))) fs from b h le v = absurd (omega arith)
