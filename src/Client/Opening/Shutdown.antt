-- ===== src/Client/Opening/Shutdown.antt =====
-- What Close does to a box, at any time of its life.
use go_cfc.Base.{
  ℕ, ◌≡◌, refl, subst, Bool, true, false, Option, none, some, String, Bytes, if◌then◌else◌,
  Option-cases, inl, inr,
}
use go_cfc.Base.Assoc.{lookup}
use go_cfc.Server.State.{World}
use go_cfc.Client.Errors.{close_failed, ClientError, Answer, fine, Replies, sub_is_disable}
use go_cfc.Client.State.{DeviceBox, SubBox, Listening}
use go_cfc.Client.Boxes.{
  close_box, close_range, stop_listening, get_sub_box_from_sid, write_sub, read_sub,
}
use go_cfc.Client.Boxes.Closed.{IsDisabled, close_range_lem}
use go_cfc.Client.Opening.{get_sub_box}
use go_cfc.Client.Opening.Steps.{get_sub_box_closed, Sound}
use go_cfc.Client.Opening.Reach.{LeavesClosed, close_box-Sound}
use go_cfc.Client.Opening.Lives.{Lives, Lives-Sound}

pub disabled_refuses :
    (c : SubBox)
    → c.disable ≡ true
    → ((accepts : Bool) (now : ℕ) (b : Bytes)
        → write_sub accepts now b c ≡ (some sub_is_disable, c))
      × ((got : Option Bytes) (now : ℕ) → read_sub got now c ≡ (some sub_is_disable, c))
unfolding write_sub read_sub
disabled_refuses c h = (λ accepts now b. rw h refl, λ got now. rw h refl)

-- What Close makes sure of.
abbrev pub Shut : DeviceBox → Option (Option ClientError × DeviceBox) → Type 0
Shut s none = Unit {0}
Shut s (some (e, t)) =
    (t.disable ≡ true) × ((id : String) (q : ℕ) → lookup id s.sub_map ≡ some q → IsDisabled t q)

ranged-Shut :
    (s : DeviceBox) (l : Option Listening) (e : Option ClientError)
    → Sound s
    → let s2 = record s {
      conn_closed = true;
      once = true;
      stop = true;
      disable = true;
      listening = l;
    } in
      Shut s (some (e, close_range s.sub_map s2))
ranged-Shut s l e v =
    let s2 = record s {
      conn_closed = true;
      once = true;
      stop = true;
      disable = true;
      listening = l;
    } in
    let (c, shut) = close_range_lem s.sub_map s2 v.flags in (c.same_disable, shut)

pub close_box-Shut :
    (s : DeviceBox) → Sound s → s.has_conn ≡ true → s.once ≡ false → Shut s (close_box s)
unfolding close_box
close_box-Shut s v a b =
    rw (a, b, close_box)
      (elim (Option-cases (if s.is_listen then s.listening else none)) [
        | inl h ↦
            rw h (ranged-Shut s s.listening (if s.conn_closed then some close_failed else none) v)
        | inr (l, h) ↦ elim (Option-cases (stop_listening l)) [
          | inl k ↦ rw (h, k) tt
          | inr (l', k) ↦
              rw (h, k)
                (ranged-Shut s (some l') (if s.conn_closed then some close_failed else none) v)
        ]
      ])

-- A box is open, and is closed for the first time, after sub boxes were opened in any of the three
-- ways, linked and offered in any order with the rest. When Close returns without waiting for a
-- receiver, every sub box that could be found by its id is closed: it neither writes nor reads anything, whatever its connection would do. And a sub box
-- that a call of GetSubBox which was late still returns is closed as well.
pub closed_box_closes_subs :
    (r : Replies) (s t : DeviceBox) (e : Option ClientError)
    → Lives r s
    → s.has_conn ≡ true
    → s.once ≡ false
    → close_box s ≡ some (e, t)
    → ((id : String) (q : ℕ)
        → get_sub_box_from_sid id s ≡ some q
        → IsDisabled t q
          × ((accepts : Bool) (now : ℕ) (b : Bytes)
              → write_sub accepts now b (t.subs q) ≡ (some sub_is_disable, t.subs q))
          × ((got : Option Bytes) (now : ℕ)
              → read_sub got now (t.subs q) ≡ (some sub_is_disable, t.subs q)))
      × ((w : World) (a b : Answer r.D) (q : ℕ)
          → (get_sub_box r w a b t).0 ≡ fine q
          → IsDisabled (get_sub_box r w a b t).1 q)
unfolding get_sub_box_from_sid
closed_box_closes_subs r s t e l a b k =
    let v = Lives-Sound r s l in
    let (off, shut) : Shut s (some (e, t)) = subst (Shut s) k (close_box-Shut s v a b) in
    (
      λ id q f.
          let h = shut id q f in
          let (no_write, no_read) = disabled_refuses (t.subs q) h in (h, no_write, no_read),
      λ w x y q f.
          get_sub_box_closed r w x y t (subst LeavesClosed k (close_box-Sound s v)) off q f,
    )
