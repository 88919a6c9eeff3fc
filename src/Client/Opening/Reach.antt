-- ===== src/Client/Opening/Reach.antt =====
-- Listening for sub boxes, the handshake and Close keep the flags and the map in order.
use go_cfc.Base.{
  ℕ, ◌<◌, ◌≡◌, refl, Bool, true, false, not, Option, none, some, List, [], ◌∷◌, ◌++◌, String,
  length, ◌||◌, str_eq, if◌then◌else◌, Bool-cases, Option-cases, if_case, inl, inr,
}
use go_cfc.Wire.Message.{ConnMsg}
use go_cfc.Server.State.{World}
use go_cfc.Client.Errors.{ClientError, Answer, fine, fault, Replies, wait_answer, Try-cases}
use go_cfc.Client.State.{DeviceBox, Listening, new_sub}
use go_cfc.Client.Boxes.{has_room, close_sub, close_box, close_range, stop_listening}
use go_cfc.Client.Boxes.Closed.{Shuts, Shuts-refl, close_sub-Shuts, close_range_lem}
use go_cfc.Client.Opening.{shake, dial_loop, offer, punch_through, listen_sub}
use go_cfc.Client.Opening.Login.{handshake_check, on_shake_a1, on_shake_a2}
use go_cfc.Client.Opening.Steps.{Sound, Sound-Shuts, quiet-Shuts, set_sub_box-Sound, opened}

-- The same sub boxes, map and flag.
pub same-Shuts :
    {s t : DeviceBox}
    → t.subs ≡ s.subs
    → t.sub_map ≡ s.sub_map
    → t.disable ≡ s.disable
    → t.next ≡ s.next
    → Shuts s t
same-Shuts {s} {t} a b c d = record {
  kept = λ q h. rw a h;
  flags = λ f q. rw a (f q);
  fewer = λ key q. rw b (λ e. e);
  same_disable = c;
  same_next = d;
}

-- What a call leaves, when it returns.
abbrev pub Leaves : (DeviceBox → Type 0) → Option DeviceBox → Type 0
Leaves P none = Unit {0}
Leaves P (some t) = P t

module _ (r : Replies) where
  punch_through-Shuts :
      (kind : String) (listens : Bool) (dials : ℕ → Option String) (q : ℕ) (s : DeviceBox)
      → Shuts s (punch_through r kind listens dials q s).1
  unfolding punch_through
  punch_through-Shuts kind listens dials q s =
      elim (Bool-cases (str_eq kind "SubOpenTypeDefault")) [
        | inl h ↦ rw (h, punch_through) Shuts-refl
        | inr h ↦ elim (Bool-cases listens) [
          | inr k ↦ rw (h, k, punch_through) (close_sub-Shuts q s)
          | inl k ↦ elim (Option-cases (dial_loop r 3 dials 0)) [
            | inl m ↦
                rw (h, k, m, punch_through)
                  (quiet-Shuts q (λ c. record c { conn_closed = true }) s (λ c. refl) (λ c. refl))
            | inr (far, m) ↦
                rw (h, k, m, punch_through)
                  (quiet-Shuts q (λ c. record c { conn_closed = false; remote_addr = far }) s
                    (λ c. refl) (λ c. refl))
          ]
        ]
      ]

  pub offer-Sound :
      (stopped : Bool) (q : ℕ) (l : Listening) (s : DeviceBox)
      → q < s.next
      → Sound s
      → Leaves Sound (offer r stopped q l s)
  unfolding offer
  offer-Sound true q l s lt v = stops l.sub_listen_stop
    where
      stops :
          (es : List ClientError)
          → Leaves Sound
              (elim es as (λ _. Option DeviceBox) [ [] ↦ none | _ ∷ _ ↦ some (close_sub q s).1 ])
      stops [] = tt
      stops (e ∷ es) = Sound-Shuts (close_sub-Shuts q s) v
  offer-Sound false q l s lt v =
      if_case (Leaves Sound) (has_room (length l.sub_listen) l.cap l)
        (λ h.
          let t = record s {
            listening = some (record l { sub_listen = l.sub_listen ++ q ∷ [] });
          } in
          set_sub_box-Sound (s.subs q).id q t lt (Sound-Shuts (same-Shuts refl refl refl refl) v))
        (λ h. tt)

  pub listen_sub-Sound :
      (w : World) (m : ConnMsg r.D) (b : Answer r.D) (listens : Bool) (dials : ℕ → Option String)
      (stopped : Bool) (s : DeviceBox)
      → Sound s
      → Leaves Sound (listen_sub r w m b listens dials stopped s)
  unfolding listen_sub
  listen_sub-Sound w m b listens dials stopped s v =
      if_case (Leaves Sound) (not (str_eq m.id "")) (λ h. v)
        (λ h. elim (Option-cases s.listening) [
          | inl k ↦ rw k v
          | inr (l, k) ↦ elim (Option-cases (r.to_sub_open_resp m.payload)) [
            | inl j ↦ rw (k, j) v
            | inr ((tid, kind), j) ↦ elim (Option-cases (w.dial_tcp s.addr)) [
              | inl i ↦
                  rw (k, j, i)
                    (if_case (Leaves Sound)
                      (str_eq kind "SubOpenTypeTCPP2P" || str_eq kind "SubOpenTypeDefault") (λ _. v)
                      (λ _. v))
              | inr ((remote, local), i) ↦
                  rw (k, j, i)
                    (if_case (Leaves Sound)
                      (str_eq kind "SubOpenTypeTCPP2P" || str_eq kind "SubOpenTypeDefault")
                      (λ _. linked w b kind local remote listens dials stopped l s v) (λ _. v))
            ]
          ]
        ])
    where
      linked :
          (w : World) (b : Answer r.D) (kind local remote : String) (listens : Bool)
          (dials : ℕ → Option String) (stopped : Bool) (l : Listening) (s : DeviceBox)
          → Sound s
          → Leaves Sound
              (elim (shake r w b s.next (new_sub w "" none local remote s)).0
                as (λ _. Option DeviceBox) [
                  | fault e ↦ some (shake r w b s.next (new_sub w "" none local remote s)).1
                  | fine q ↦
                      let (go, box2) =
                        punch_through r kind listens dials q
                          (shake r w b s.next (new_sub w "" none local remote s)).1 in
                      if go then offer r stopped q l box2 else some box2
                ])
      linked w b kind local remote listens dials stopped l s v =
          let (u, lt) = opened r w b "" local remote s v in
          let t = (shake r w b s.next (new_sub w "" none local remote s)).1 in
          elim (Try-cases (shake r w b s.next (new_sub w "" none local remote s)).0) [
            | inl (e, f) ↦ rw f u
            | inr (q, f) ↦
                let c = punch_through-Shuts kind listens dials q t in
                rw f (
                  if_case (Leaves Sound) (punch_through r kind listens dials q t).0
                    (λ _. offer-Sound stopped q l _ (rw c.same_next (lt q f)) (Sound-Shuts c u))
                    (λ _. Sound-Shuts c u))
          ]

  pub handshake_check-Sound :
      (a b : Answer r.D) (s : DeviceBox) → Sound s → Sound (handshake_check r a b s).1
  unfolding handshake_check
  handshake_check-Sound a b s v = elim (Try-cases (wait_answer a (on_shake_a1 r))) [
    | inl (e, h) ↦ rw (h, handshake_check) v
    | inr (x, h) ↦ elim (Try-cases (wait_answer b (on_shake_a2 r))) [
      | inl (e, k) ↦ rw (h, k, handshake_check) v
      | inr (info, k) ↦ rw (h, k, handshake_check) (Sound-Shuts (same-Shuts refl refl refl refl) v)
    ]
  ]

-- Close after the flags are set.
ranged-Sound :
    (s : DeviceBox) (l : Option Listening)
    → Sound s
    → let s2 = record s {
      conn_closed = true;
      once = true;
      stop = true;
      disable = true;
      listening = l;
    } in
      Sound (close_range s.sub_map s2)
ranged-Sound s l v =
    let s2 = record s {
      conn_closed = true;
      once = true;
      stop = true;
      disable = true;
      listening = l;
    } in
    let (c, shut) = close_range_lem s.sub_map s2 v.flags in
    record {
      flags = c.flags v.flags;
      below = λ key q e. rw c.same_next (v.below key q (c.fewer key q e));
      gone = λ key q h e. shut key q (c.fewer key q e);
    }

abbrev pub LeavesClosed : Option (Option ClientError × DeviceBox) → Type 0
LeavesClosed none = Unit {0}
LeavesClosed (some (e, t)) = Sound t

pub close_box-Sound : (s : DeviceBox) → Sound s → LeavesClosed (close_box s)
unfolding close_box
close_box-Sound s v =
    if_case LeavesClosed (not s.has_conn) (λ _. v)
      (λ _.
        if_case LeavesClosed s.once (λ _. Sound-Shuts (same-Shuts refl refl refl refl) v)
          (λ _. elim (Option-cases (if s.is_listen then s.listening else none)) [
            | inl h ↦ rw h (ranged-Sound s s.listening v)
            | inr (l, h) ↦ elim (Option-cases (stop_listening l)) [
              | inl k ↦ rw (h, k) tt
              | inr (l', k) ↦ rw (h, k) (ranged-Sound s (some l') v)
            ]
          ]))
