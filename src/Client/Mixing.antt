-- ===== src/Client/Mixing.antt =====
-- GetSubBoxBySubTypeMix of client/client_subType.go over the three ways of a box.
pub mod Living
use go_cfc.Base.{
  ℕ, ◌≡◌, refl, ap, ◌∙◌, subst, Bool, true, false, Option, none, some, List, [], ◌∷◌, ◌++◌, String,
  Bytes, if_case, str_eq,
}
use go_cfc.Server.State.{World}
use go_cfc.Client.Errors.{ClientError, Answer, Try, fine, fault, Replies, sub_is_disable}
use go_cfc.Client.State
use go_cfc.Client.Boxes.{close_box, write_sub, read_sub}
use go_cfc.Client.Boxes.Closed.{IsDisabled}
use go_cfc.Client.Opening.{get_sub_box, get_sub_box_by_p2p}
use go_cfc.Client.Opening.Steps.{Sound}
use go_cfc.Client.Opening.Reach.{LeavesClosed, close_box-Sound}
use go_cfc.Client.Opening.Lives.{Lives, Lives-Sound}
use go_cfc.Client.Opening.Shutdown.{disabled_refuses, Shut, close_box-Shut}
use go_cfc.Client.Opening.Ways.{
  LeavesLate, get_sub_box-Late, get_sub_box_by_p2p-Late, get_sub_box_by_up2p-Late,
}
use go_cfc.Client.Up2p.{Punching, get_sub_box_by_up2p}
use go_cfc.Client.SubTypes.{
  DeviceBox, SubError, Got, failed, got, way_failed, get_sub_box_by_sub_type, mix_loop, round,
  get_sub_box_by_sub_type_mix,
}

-- A result of a way as a (SubBox, error) pair.
unfoldable pub as_got :
    Option (Try ℕ × State.DeviceBox) → Option (Got ClientError ℕ × State.DeviceBox)
as_got none = none
as_got (some (fault e, t)) = some (failed (way_failed e), t)
as_got (some (fine q, t)) = some (got q, t)

module _ (r : Replies) where
  -- What a call of a way meets outside.
  pub record Around : Type 0 where
    pub world : World
    pub opens : Answer r.D
    pub shakes : Answer r.D
    pub listens : Bool
    pub accepted : Option String
    pub punching : Punching

  -- The ways of a box; what a call meets may depend on the name and on all that came before.
  unfoldable pub ways :
      (String → Bytes)
      → (String → State.DeviceBox → Around)
      → DeviceBox State.DeviceBox ClientError ℕ
  unfolding get_sub_box get_sub_box_by_p2p get_sub_box_by_up2p as_got
  ways bytes_of around = record {
    get_sub_box =
        λ name s. let o = around name s in as_got (some (get_sub_box r o.world o.opens o.shakes s));
    get_sub_box_by_p2p = λ name s.
        let o = around name s in
        as_got (some (get_sub_box_by_p2p r o.world o.opens o.shakes o.listens o.accepted s));
    get_sub_box_by_up2p = λ name s.
        let o = around name s in
        as_got (get_sub_box_by_up2p r o.world bytes_of o.opens o.shakes o.punching s);
  }

-- What is left of a box that was closed: it stays so, and what was got does not work.
record Off (g : Got ClientError ℕ) (t : State.DeviceBox) : Type 0 where
  sound : Sound t
  disabled : t.disable ≡ true
  useless : (q : ℕ) → g ≡ got q → IsDisabled t q

abbrev LeavesOff : Option (Got ClientError ℕ × State.DeviceBox) → Type 0
LeavesOff none = Unit {0}
LeavesOff (some (g, t)) = Off g t

as_got-Off :
    (s : State.DeviceBox) (o : Option (Try ℕ × State.DeviceBox))
    → s.disable ≡ true
    → LeavesLate s o
    → LeavesOff (as_got o)
unfolding as_got
as_got-Off s none d l = tt
as_got-Off s (some (fault e, t)) d l = record {
  sound = l.sound;
  disabled = l.same ∙ d;
  useless = λ q h. absurd (let no : ⊥ = cc in no);
}
as_got-Off s (some (fine p, t)) d l = record {
  sound = l.sound;
  disabled = l.same ∙ d;
  useless = λ q h. l.off d q (let same : fine p ≡ fine q = cc in same);
}

module _ (r : Replies) (bytes_of : String → Bytes)
    (around : String → State.DeviceBox → Around r) where
  way-Off :
      (name one : String) (s : State.DeviceBox)
      → Sound s
      → s.disable ≡ true
      → LeavesOff (get_sub_box_by_sub_type (ways r bytes_of around) name one s)
  unfolding ways get_sub_box_by_sub_type
  way-Off name one s v d =
      let o = around name s in
      if_case LeavesOff (str_eq one "SubTypeProxy")
        (λ _.
          as_got-Off s (some (get_sub_box r o.world o.opens o.shakes s)) d
            (get_sub_box-Late r o.world o.opens o.shakes s v))
        (λ _.
          if_case LeavesOff (str_eq one "SubTypeP2P")
            (λ _.
              as_got-Off s
                (some (get_sub_box_by_p2p r o.world o.opens o.shakes o.listens o.accepted s)) d
                (get_sub_box_by_p2p-Late r o.world o.opens o.shakes o.listens o.accepted s v))
            (λ _.
              if_case LeavesOff (str_eq one "SubTypeUP2P")
                (λ _.
                  as_got-Off s
                    (get_sub_box_by_up2p r o.world bytes_of o.opens o.shakes o.punching s) d
                    (get_sub_box_by_up2p-Late r o.world bytes_of o.opens o.shakes o.punching s v))
                (λ _. record {
                  sound = v;
                  disabled = d;
                  useless = λ q h. absurd (let no : ⊥ = cc in no);
                })))

  abbrev Errs : Type 0
  Errs = List (Option (SubError ClientError))

  abbrev LeavesMixed : Option (Got ClientError ℕ × Errs × State.DeviceBox) → Type 0
  LeavesMixed none = Unit {0}
  LeavesMixed (some (g, es, t)) = Off g t

  mix_loop-Off :
      (name : String) (done : Errs) (ts : List String) (s : State.DeviceBox)
      → Sound s
      → s.disable ≡ true
      → LeavesMixed (mix_loop (ways r bytes_of around) name done ts s)
  unfolding mix_loop
  mix_loop-Off name done [] s v d = record {
    sound = v;
    disabled = d;
    useless = λ q h. absurd (let no : ⊥ = cc in no);
  }
  mix_loop-Off name done (one ∷ ts) s v d =
      by_way (λ done' t. mix_loop-Off name done' ts t) _ refl (way-Off name one s v d)
    where
      by_way :
          ((done' : Errs) (t : State.DeviceBox)
            → Sound t
            → t.disable ≡ true
            → LeavesMixed (mix_loop (ways r bytes_of around) name done' ts t))
          → (p : Option (Got ClientError ℕ × State.DeviceBox))
          → get_sub_box_by_sub_type (ways r bytes_of around) name one s ≡ p
          → LeavesOff p
          → LeavesMixed (mix_loop (ways r bytes_of around) name done (one ∷ ts) s)
      by_way rest none h off = rw (round (ways r bytes_of around) name one done ts s none h) tt
      by_way rest (some (failed e, t)) h off =
          rw (round (ways r bytes_of around) name one done ts s (some (failed e, t)) h)
            (rest (done ++ some e ∷ []) t off.sound off.disabled)
      by_way rest (some (got q, t)) h off =
          rw (round (ways r bytes_of around) name one done ts s (some (got q, t)) h) off

  -- A box is closed for the first time at some moment of its life, after sub boxes were opened in any
  -- of the three ways, and Close has returned without waiting for a receiver. Then a call of GetSubBoxBySubTypeMix, with any sub types and whatever comes from the server and the
  -- network, gives no sub box that works: one that it returns neither writes nor reads.
  pub closed_box_opens_nothing :
      (s t t' : State.DeviceBox) (e : Option ClientError) (name : String) (sub_types : List String)
      (q : ℕ) (errs : List (Option (SubError ClientError)))
      → Lives r s
      → s.has_conn ≡ true
      → s.once ≡ false
      → close_box s ≡ some (e, t)
      → get_sub_box_by_sub_type_mix (ways r bytes_of around) name sub_types t
        ≡ some (got q, errs, t')
      → ((accepts : Bool) (now : ℕ) (b : Bytes)
          → write_sub accepts now b (t'.subs q) ≡ (some sub_is_disable, t'.subs q))
        × ((given : Option Bytes) (now : ℕ)
            → read_sub given now (t'.subs q) ≡ (some sub_is_disable, t'.subs q))
  unfolding get_sub_box_by_sub_type_mix
  closed_box_opens_nothing s t t' e name sub_types q errs l a b k m =
      let v = Lives-Sound r s l in
      let (off, _) : Shut s (some (e, t)) = subst (Shut s) k (close_box-Shut s v a b) in
      let left : Off (got q) t' =
        subst LeavesMixed m
          (mix_loop-Off name [] sub_types t (subst LeavesClosed k (close_box-Sound s v)) off) in
      disabled_refuses (t'.subs q) (left.useless q refl)
