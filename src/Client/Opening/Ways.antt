-- ===== src/Client/Opening/Ways.antt =====
-- The three ways to open a sub box: what they leave in order, and what they give on a box that is
-- closed.
use go_cfc.Base.{
  ℕ, ◌<◌, ◌≡◌, refl, ◌∙◌, Bool, true, false, Option, none, some, String, Bytes, arith,
  if◌then◌else◌, Option-cases, if_case, inl, inr,
}
use go_cfc.Server.State.{World, SubInfo}
use go_cfc.Client.Errors.{ClientError, Answer, Try, fine, fault, Replies, wait_answer, Try-cases}
use go_cfc.Client.State.{DeviceBox, update, new_sub}
use go_cfc.Client.Boxes.{set_sub_box}
use go_cfc.Client.Boxes.Closed.{IsDisabled, close_sub-Shuts}
use go_cfc.Client.Opening.{on_open_a, shake, get_sub_box, get_sub_box_by_p2p}
use go_cfc.Client.Opening.Steps.{
  Sound, Sound-Shuts, quiet-Shuts, new_sub-Sound, set_sub_box-Sound, set_sub_box_closed, shaken,
  opened,
}
use go_cfc.Client.Up2p.{Punching, on_up2p_q1, handle_up2p, get_sub_box_by_up2p}

-- What one way leaves: a box in order, and if it was closed, nothing that works.
pub record Late (s : DeviceBox) (res : Try ℕ) (t : DeviceBox) : Type 0 where
  pub sound : Sound t
  pub same : t.disable ≡ s.disable
  pub off : s.disable ≡ true → (q : ℕ) → res ≡ fine q → IsDisabled t q

pub fault-Late :
    (s t : DeviceBox) (e : ClientError) → Sound t → t.disable ≡ s.disable → Late s (fault e) t
fault-Late s t e v h = record { sound = v; same = h; off = λ d q k. absurd (let no : ⊥ = cc in no) }

set_sub_box-same :
    (key : String) (q : ℕ) (s : DeviceBox) → (set_sub_box key q s).disable ≡ s.disable
unfolding set_sub_box
set_sub_box-same key q s =
    if_case (λ (t : DeviceBox). t.disable ≡ s.disable) s.disable
      (λ h. (close_sub-Shuts q s).same_disable) (λ h. refl)

set-Late :
    (s t : DeviceBox) (key : String) (q : ℕ)
    → Sound t
    → q < t.next
    → t.disable ≡ s.disable
    → Late s (fine q) (set_sub_box key q t)
set-Late s t key q v lt h = record {
  sound = set_sub_box-Sound key q t lt v;
  same = set_sub_box-same key q t ∙ h;
  off = λ d p k. set_sub_box_closed key q p t v (h ∙ d) (let same : q ≡ p = cc in same);
}

abbrev pub LeavesLate : DeviceBox → Option (Try ℕ × DeviceBox) → Type 0
LeavesLate s none = Unit {0}
LeavesLate s (some (res, t)) = Late s res t

module _ (r : Replies) where
  -- After the handshake of a new sub box.
  shaken_same :
      (w : World) (b : Answer r.D) (sub_type local remote : String) (s : DeviceBox)
      → (shake r w b s.next (new_sub w sub_type none local remote s)).1.disable ≡ s.disable
  unfolding new_sub
  shaken_same w b sub_type local remote s =
      (shaken r w b s.next (new_sub w sub_type none local remote s)).0.same_disable

  pub get_sub_box-Late :
      (w : World) (a b : Answer r.D) (s : DeviceBox)
      → Sound s
      → Late s (get_sub_box r w a b s).0 (get_sub_box r w a b s).1
  unfolding get_sub_box
  get_sub_box-Late w a b s v = elim (Try-cases (wait_answer a (on_open_a r))) [
    | inl (e, h) ↦ rw (h, get_sub_box) (fault-Late s s e v refl)
    | inr (x, h) ↦ elim (Option-cases (w.dial_tcp s.addr)) [
      | inl k ↦ rw (h, get_sub_box, k) (fault-Late s s _ v refl)
      | inr ((remote, local), k) ↦
          let (u, lt) = opened r w b "SubTypeProxy" local remote s v in
          let same = shaken_same w b "SubTypeProxy" local remote s in
          elim (Try-cases (shake r w b s.next (new_sub w "SubTypeProxy" none local remote s)).0) [
            | inl (e, f) ↦ rw (h, get_sub_box, k, f) (fault-Late s _ e u same)
            | inr (q, f) ↦ rw (h, get_sub_box, k, f) (set-Late s _ _ q u (lt q f) same)
          ]
    ]
  ]

  pub get_sub_box_by_p2p-Late :
      (w : World) (a b : Answer r.D) (listens : Bool) (accepted : Option String) (s : DeviceBox)
      → Sound s
      → let p = get_sub_box_by_p2p r w a b listens accepted s in Late s p.0 p.1
  unfolding get_sub_box_by_p2p update
  get_sub_box_by_p2p-Late w a b listens accepted s v =
      elim (Try-cases (wait_answer a (on_open_a r))) [
        | inl (e, h) ↦ rw (h, get_sub_box_by_p2p) (fault-Late s s e v refl)
        | inr (x, h) ↦ elim (Option-cases (w.dial_tcp s.addr)) [
          | inl k ↦ rw (h, get_sub_box_by_p2p, k) (fault-Late s s _ v refl)
          | inr ((remote, local), k) ↦
              let (u, lt) = opened r w b "SubTypeP2P" local remote s v in
              let same = shaken_same w b "SubTypeP2P" local remote s in
              let t = (shake r w b s.next (new_sub w "SubTypeP2P" none local remote s)).1 in
              elim (Try-cases (shake r w b s.next (new_sub w "SubTypeP2P" none local remote s)).0) [
                | inl (e, f) ↦ rw (h, get_sub_box_by_p2p, k, f) (fault-Late s _ e u same)
                | inr (q, f) ↦ elim (Option-cases (if listens then accepted else none)) [
                  | inl m ↦
                      rw (h, get_sub_box_by_p2p, k, f, m)
                        (fault-Late s _ _ (Sound-Shuts (close_sub-Shuts q t) u)
                          ((close_sub-Shuts q t).same_disable ∙ same))
                  | inr (far, m) ↦
                      rw (h, get_sub_box_by_p2p, k, f, m)
                        (set-Late s _ _ q
                          (Sound-Shuts
                            (quiet-Shuts q
                              (λ c. record c { conn_closed = false; remote_addr = far }) t
                              (λ c. refl) (λ c. refl))
                            u)
                          (lt q f) same)
                ]
              ]
        ]
      ]

  new-Late :
      (w : World) (info : SubInfo) (near far key : String) (s : DeviceBox)
      → Sound s
      → Late s
          (fine s.next)
          (set_sub_box key s.next (new_sub w "SubTypeUP2P" (some info) near far s))
  unfolding new_sub update
  new-Late w info near far key s v =
      set-Late s (new_sub w "SubTypeUP2P" (some info) near far s) key s.next
        (new_sub-Sound w "SubTypeUP2P" (some info) near far s v) (omega arith) refl

  pub get_sub_box_by_up2p-Late :
      (w : World) (bytes_of : String → Bytes) (a b : Answer r.D) (p : Punching) (s : DeviceBox)
      → Sound s
      → LeavesLate s (get_sub_box_by_up2p r w bytes_of a b p s)
  unfolding get_sub_box_by_up2p
  get_sub_box_by_up2p-Late w bytes_of a b p s v = elim (Try-cases (wait_answer a (on_up2p_q1 r))) [
    | inl (e, h) ↦ rw (h, get_sub_box_by_up2p) (fault-Late s s e v refl)
    | inr (kid, h) ↦ elim (Option-cases (handle_up2p r true p (bytes_of kid) b)) [
      | inl k ↦ rw (h, get_sub_box_by_up2p, k) tt
      | inr (t, k) ↦ elim (Try-cases t) [
        | inl (e, f) ↦ rw (h, get_sub_box_by_up2p, k, f) (fault-Late s s e v refl)
        | inr (((near, far), info), f) ↦
            rw (h, get_sub_box_by_up2p, k, f) (new-Late w info near far _ s v)
      ]
    ]
  ]
