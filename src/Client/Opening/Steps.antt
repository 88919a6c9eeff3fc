-- ===== src/Client/Opening/Steps.antt =====
-- GetSubBox and GetSubBoxByP2P keep the flags and the map of the sub boxes in order.
use go_cfc.Base.{
  ℕ, ◌<◌, ◌≡◌, refl, sym, ◌∙◌, subst, Bool, true, false, Option, none, some, String, arith,
  if◌then◌else◌, Option-cases, if_case, inl, inr,
}
use go_cfc.Base.Assoc.{lookup, lookup-insert}
use go_cfc.Server.State.{World, SubInfo}
use go_cfc.Client.Errors.{ClientError, Answer, Try, fine, fault, Replies, wait_answer, Try-cases}
use go_cfc.Client.State.{DeviceBox, SubBox, update, new_sub}
use go_cfc.Client.Boxes.{close_sub, set_sub_box, set_deadline_duration}
use go_cfc.Client.Boxes.Closed.{IsDisabled, Shuts, Shuts-trans, close_sub_disables, close_sub-Shuts}
use go_cfc.Client.Opening.{
  on_task_a, fast_handshake, on_open_a, shake, get_sub_box, get_sub_box_by_p2p,
}

pub record Sound (s : DeviceBox) : Type 0 where
  pub flags : (q : ℕ) → (s.subs q).once ≡ true → IsDisabled s q
  pub below : (key : String) (q : ℕ) → lookup key s.sub_map ≡ some q → q < s.next
  pub gone :
      (key : String) (q : ℕ) → s.disable ≡ true → lookup key s.sub_map ≡ some q → IsDisabled s q

pub Sound-Shuts : {s t : DeviceBox} → Shuts s t → Sound s → Sound t
Sound-Shuts {s} {t} c v = record {
  flags = c.flags v.flags;
  below = λ key q e. rw c.same_next (v.below key q (c.fewer key q e));
  gone = λ key q h e. c.kept q (v.gone key q (sym c.same_disable ∙ h) (c.fewer key q e));
}

-- A change of a sub box that leaves its flags alone.
pub quiet-Shuts :
    (q : ℕ) (f : SubBox → SubBox) (s : DeviceBox)
    → ((c : SubBox) → (f c).disable ≡ c.disable)
    → ((c : SubBox) → (f c).once ≡ c.once)
    → Shuts s (update q f s)
unfolding update
quiet-Shuts q f s d o = record {
  kept = λ p h. ground (arith, d (s.subs p));
  flags = λ g p h. ground (arith, g p, d (s.subs p), o (s.subs p));
  fewer = λ k p e. e;
  same_disable = refl;
  same_next = refl;
}

pub new_sub-Sound :
    (w : World) (sub_type : String) (addr : Option SubInfo) (local remote : String) (s : DeviceBox)
    → Sound s
    → Sound (new_sub w sub_type addr local remote s)
unfolding new_sub update
new_sub-Sound w sub_type addr local remote s v = record {
  flags = λ q h. ground (arith, v.flags q);
  below = λ key q e. ground (arith, v.below key q);
  gone = λ key q h e. ground (arith, v.below key q, v.gone key q);
}

pub set_sub_box-Sound :
    (key : String) (q : ℕ) (s : DeviceBox) → q < s.next → Sound s → Sound (set_sub_box key q s)
unfolding set_sub_box
set_sub_box-Sound key q s lt v =
    if_case Sound s.disable (λ h. Sound-Shuts (close_sub-Shuts q s) v)
      (λ h. record {
        flags = v.flags;
        below = λ k p e. ground (arith, lookup-insert key k q s.sub_map, v.below k p);
        gone = λ k p d e. ground arith;
      })

below_next :
    (w : World) (sub_type local remote : String) (s : DeviceBox) (n q : ℕ)
    → n ≡ (new_sub w sub_type none local remote s).next
    → q ≡ s.next
    → q < n
unfolding new_sub
below_next w sub_type local remote s n q e f = omega arith

-- A change of the connection of `q`, and then its entry in the map.
moved-Sound :
    (key : String) (q : ℕ) (f : SubBox → SubBox) (s : DeviceBox)
    → ((c : SubBox) → (f c).disable ≡ c.disable)
    → ((c : SubBox) → (f c).once ≡ c.once)
    → q < s.next
    → Sound s
    → Sound (set_sub_box key q (update q f s))
unfolding update
moved-Sound key q f s d o lt v =
    set_sub_box-Sound key q (update q f s) lt (Sound-Shuts (quiet-Shuts q f s d o) v)

pub set_sub_box_closed :
    (key : String) (p q : ℕ) (s : DeviceBox)
    → Sound s
    → s.disable ≡ true
    → p ≡ q
    → IsDisabled (set_sub_box key p s) q
unfolding set_sub_box
set_sub_box_closed key p q s v d e =
    if_case (λ t. IsDisabled t q) s.disable
      (λ h. subst (IsDisabled (close_sub p s).1) e (close_sub_disables p s v.flags))
      (λ h. absurd (ground (arith, h, d)))

module _ (r : Replies) where
  fast_handshake-Shuts :
      (w : World) (a : Answer r.D) (q : ℕ) (s : DeviceBox) → Shuts s (fast_handshake r w a q s).1
  unfolding fast_handshake set_deadline_duration
  fast_handshake-Shuts w a q s =
      let timed =
        quiet-Shuts q (set_deadline_duration w.now 10000000000) s (λ c. refl) (λ c. refl) in
      let s1 = update q (set_deadline_duration w.now 10000000000) s in
      by_answer (wait_answer a (on_task_a r)) s1 timed
    where
      by_answer :
          (t : Try SubInfo) (s1 : DeviceBox)
          → Shuts s s1
          → Shuts s
              (elim t as (λ _. Option ClientError × DeviceBox) [
                | fine info ↦ (none, update q (λ c. record c { addr = some info }) s1)
                | fault e ↦ (some e, s1)
              ]).1
      by_answer (fine info) s1 timed =
          Shuts-trans timed
            (quiet-Shuts q (λ c. record c { addr = some info }) s1 (λ c. refl) (λ c. refl))
      by_answer (fault e) s1 timed = timed

  -- After the handshake of `q`, at most closing; and what it gives is `q`.
  pub shaken :
      (w : World) (a : Answer r.D) (q : ℕ) (s : DeviceBox)
      → Shuts s (shake r w a q s).1 × ((p : ℕ) → (shake r w a q s).0 ≡ fine p → p ≡ q)
  unfolding shake set_deadline_duration
  shaken w a q s = elim (Option-cases (fast_handshake r w a q s).0) [
    | inr (x, h) ↦
        rw (h, shake) (Shuts-trans (fast_handshake-Shuts w a q s) (close_sub-Shuts q _), λ p e. cc)
    | inl h ↦
        rw (h, shake)
          (
            Shuts-trans (fast_handshake-Shuts w a q s)
                (quiet-Shuts q (set_deadline_duration w.now 0) _ (λ c. refl) (λ c. refl)),
            λ p e. cc,
          )
  ]

  -- A new sub box and its handshake.
  pub opened :
      (w : World) (a : Answer r.D) (sub_type local remote : String) (s : DeviceBox)
      → Sound s
      → let (res, t) = shake r w a s.next (new_sub w sub_type none local remote s) in
        Sound t × ((q : ℕ) → res ≡ fine q → q < t.next)
  opened w a sub_type local remote s v =
      let s1 = new_sub w sub_type none local remote s in
      let (c, which) = shaken w a s.next s1 in
      (
        Sound-Shuts c (new_sub-Sound w sub_type none local remote s v),
        λ q e. below_next w sub_type local remote s _ q c.same_next (which q e),
      )

  pub get_sub_box-Sound :
      (w : World) (a b : Answer r.D) (s : DeviceBox) → Sound s → Sound (get_sub_box r w a b s).1
  unfolding get_sub_box
  get_sub_box-Sound w a b s v = elim (Try-cases (wait_answer a (on_open_a r))) [
    | inl (e, h) ↦ rw (h, get_sub_box) v
    | inr (x, h) ↦ elim (Option-cases (w.dial_tcp s.addr)) [
      | inl k ↦ rw (h, get_sub_box, k) v
      | inr ((remote, local), k) ↦
          let (u, lt) = opened w b "SubTypeProxy" local remote s v in
          elim (Try-cases (shake r w b s.next (new_sub w "SubTypeProxy" none local remote s)).0) [
            | inl (e, f) ↦ rw (h, get_sub_box, k, f) u
            | inr (q, f) ↦ rw (h, get_sub_box, k, f) (set_sub_box-Sound _ q _ (lt q f) u)
          ]
    ]
  ]

  -- GetSubBox of a box that is closed.
  pub get_sub_box_closed :
      (w : World) (a b : Answer r.D) (s : DeviceBox)
      → Sound s
      → s.disable ≡ true
      → (q : ℕ) → (get_sub_box r w a b s).0 ≡ fine q
      → IsDisabled (get_sub_box r w a b s).1 q
  unfolding get_sub_box new_sub
  get_sub_box_closed w a b s v d q e = elim (Try-cases (wait_answer a (on_open_a r))) [
    | inl (x, h) ↦ let e' = rw (h, get_sub_box) at e in cc
    | inr (x, h) ↦ elim (Option-cases (w.dial_tcp s.addr)) [
      | inl k ↦ let e' = rw (h, get_sub_box, k) at e in cc
      | inr ((remote, local), k) ↦
          let s1 = new_sub w "SubTypeProxy" none local remote s in
          let (u, lt) = opened w b "SubTypeProxy" local remote s v in
          elim (Try-cases (shake r w b s.next s1).0) [
            | inl (y, f) ↦ let e' = rw (h, get_sub_box, k, f) at e in cc
            | inr (p, f) ↦
                let e' : fine p ≡ fine q = rw (h, get_sub_box, k, f) at e in
                let same : p ≡ q = cc in
                let off = (shaken w b s.next s1).0.same_disable ∙ d in
                rw (h, get_sub_box, k, f)
                  (set_sub_box_closed _ p q (shake r w b s.next s1).1 u off same)
          ]
    ]
  ]

  pub get_sub_box_by_p2p-Sound :
      (w : World) (a b : Answer r.D) (listens : Bool) (accepted : Option String) (s : DeviceBox)
      → Sound s
      → Sound (get_sub_box_by_p2p r w a b listens accepted s).1
  unfolding get_sub_box_by_p2p
  get_sub_box_by_p2p-Sound w a b listens accepted s v =
      elim (Try-cases (wait_answer a (on_open_a r))) [
        | inl (e, h) ↦ rw (h, get_sub_box_by_p2p) v
        | inr (x, h) ↦ elim (Option-cases (w.dial_tcp s.addr)) [
          | inl k ↦ rw (h, get_sub_box_by_p2p, k) v
          | inr ((remote, local), k) ↦
              let (u, lt) = opened w b "SubTypeP2P" local remote s v in
              let t = (shake r w b s.next (new_sub w "SubTypeP2P" none local remote s)).1 in
              elim (Try-cases (shake r w b s.next (new_sub w "SubTypeP2P" none local remote s)).0) [
                | inl (e, f) ↦ rw (h, get_sub_box_by_p2p, k, f) u
                | inr (q, f) ↦ elim (Option-cases (if listens then accepted else none)) [
                  | inl m ↦
                      rw (h, get_sub_box_by_p2p, k, f, m) (Sound-Shuts (close_sub-Shuts q t) u)
                  | inr (far, m) ↦
                      rw (h, get_sub_box_by_p2p, k, f, m)
                        (moved-Sound _ q (λ c. record c { conn_closed = false; remote_addr = far })
                          t (λ c. refl) (λ c. refl) (lt q f) u)
                ]
              ]
        ]
      ]
