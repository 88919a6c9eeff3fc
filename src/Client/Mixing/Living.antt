-- ===== src/Client/Mixing/Living.antt =====
-- The calls of GetSubBoxBySubTypeMix belong to the life of a box.
use go_cfc.Base.{
  ℕ, ◌≡◌, refl, ap, subst, Option, none, some, List, [], ◌∷◌, ◌++◌, String, Bytes, if_case, str_eq,
}
use go_cfc.Client.Errors.{ClientError, Try, fine, fault, Replies}
use go_cfc.Client.State
use go_cfc.Client.Opening.{get_sub_box, get_sub_box_by_p2p}
use go_cfc.Client.Opening.Lives.{Lives, after, opens, opens_p2p, opens_up2p}
use go_cfc.Client.Up2p.{get_sub_box_by_up2p}
use go_cfc.Client.SubTypes.{
  SubError, Got, failed, got, get_sub_box_by_sub_type, mix_loop, round, get_sub_box_by_sub_type_mix,
}
use go_cfc.Client.Mixing.{Around, ways, as_got}

module _ (r : Replies) (bytes_of : String → Bytes)
    (around : String → State.DeviceBox → Around r) where
  abbrev Errs : Type 0
  Errs = List (Option (SubError ClientError))

  -- The life of a box goes on with a way, and so with a call that tries several.
  abbrev LivesAfter : Option (Got ClientError ℕ × State.DeviceBox) → Type 0
  LivesAfter none = Unit {0}
  LivesAfter (some (g, t)) = Lives r t

  as_got-Lives :
      (o : Option (Try ℕ × State.DeviceBox))
      → ((res : Try ℕ) (t : State.DeviceBox) → o ≡ some (res, t) → Lives r t)
      → LivesAfter (as_got o)
  unfolding as_got
  as_got-Lives none h = tt
  as_got-Lives (some (fault e, t)) h = h (fault e) t refl
  as_got-Lives (some (fine q, t)) h = h (fine q) t refl

  way-Lives :
      (name one : String) (s : State.DeviceBox)
      → Lives r s
      → LivesAfter (get_sub_box_by_sub_type (ways r bytes_of around) name one s)
  unfolding ways get_sub_box_by_sub_type as_got
  way-Lives name one s l =
      let o = around name s in
      let p = get_sub_box r o.world o.opens o.shakes s in
      let p2 = get_sub_box_by_p2p r o.world o.opens o.shakes o.listens o.accepted s in
      if_case LivesAfter (str_eq one "SubTypeProxy")
        (λ _. as_got-Lives (some p) λ res t e.
          subst (Lives r) (ap (state_of s) e) (after s p.1 l (opens o.world o.opens o.shakes s)))
        (λ _.
          if_case LivesAfter (str_eq one "SubTypeP2P")
            (λ _. as_got-Lives (some p2) λ res t e.
              subst (Lives r) (ap (state_of s) e)
                (after s p2.1 l (opens_p2p o.world o.opens o.shakes o.listens o.accepted s)))
            (λ _.
              if_case LivesAfter (str_eq one "SubTypeUP2P")
                (λ _.
                  as_got-Lives
                    (get_sub_box_by_up2p r o.world bytes_of o.opens o.shakes o.punching s)
                    λ res t e.
                      after s t l
                        (opens_up2p o.world bytes_of o.opens o.shakes o.punching res s t e))
                (λ _. l)))
    where
      state_of : State.DeviceBox → Option (Try ℕ × State.DeviceBox) → State.DeviceBox
      state_of s none = s
      state_of s (some (res, t)) = t

  abbrev MixLives : Option (Got ClientError ℕ × Errs × State.DeviceBox) → Type 0
  MixLives none = Unit {0}
  MixLives (some (g, es, t)) = Lives r t

  mix_loop-Lives :
      (name : String) (done : Errs) (ts : List String) (s : State.DeviceBox)
      → Lives r s
      → MixLives (mix_loop (ways r bytes_of around) name done ts s)
  unfolding mix_loop
  mix_loop-Lives name done [] s l = l
  mix_loop-Lives name done (one ∷ ts) s l =
      by_way (λ done' t. mix_loop-Lives name done' ts t) _ refl (way-Lives name one s l)
    where
      by_way :
          ((done' : Errs) (t : State.DeviceBox)
            → Lives r t
            → MixLives (mix_loop (ways r bytes_of around) name done' ts t))
          → (p : Option (Got ClientError ℕ × State.DeviceBox))
          → get_sub_box_by_sub_type (ways r bytes_of around) name one s ≡ p
          → LivesAfter p
          → MixLives (mix_loop (ways r bytes_of around) name done (one ∷ ts) s)
      by_way rest none h l = rw (round (ways r bytes_of around) name one done ts s none h) tt
      by_way rest (some (failed e, t)) h l =
          rw (round (ways r bytes_of around) name one done ts s (some (failed e, t)) h)
            (rest (done ++ some e ∷ []) t l)
      by_way rest (some (got q, t)) h l =
          rw (round (ways r bytes_of around) name one done ts s (some (got q, t)) h) l

  -- A call of GetSubBoxBySubTypeMix is a part of the life of its box.
  pub get_sub_box_by_sub_type_mix-Lives :
      (s t : State.DeviceBox) (name : String) (sub_types : List String) (g : Got ClientError ℕ)
      (errs : Errs)
      → Lives r s
      → get_sub_box_by_sub_type_mix (ways r bytes_of around) name sub_types s ≡ some (g, errs, t)
      → Lives r t
  unfolding get_sub_box_by_sub_type_mix
  get_sub_box_by_sub_type_mix-Lives s t name sub_types g errs l m =
      subst MixLives m (mix_loop-Lives name [] sub_types s l)
