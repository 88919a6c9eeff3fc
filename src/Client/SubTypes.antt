-- ===== src/Client/SubTypes.antt =====
-- client/client_subType.go: the ways to open a sub box, tried one after the other. The three ways
-- are parameters, which take the state `S` of the box and of the network with them; `none` is a call
-- that never returns.
use mathlib.Core.List.{append_assoc, append-nil}
use go_cfc.Base.{
  ◌≡◌, sym, ap, ◌∙◌, Option, none, some, List, [], ◌∷◌, ◌++◌, String, str_eq, if◌then◌else◌,
}

pub data SubError (E : Type 0) : Type 0 where
  sub_type_invalid sub_type_to_mix_get_sub_box_failed : SubError E
  way_failed : E → SubError E

-- A (SubBox, error) pair of which one is nil.
pub data Got (E B : Type 0) : Type 0 where
  failed : SubError E → Got E B
  got : B → Got E B

pub record DeviceBox (S E B : Type 0) : Type 0 where
  pub get_sub_box : String → S → Option (Got E B × S)
  pub get_sub_box_by_p2p : String → S → Option (Got E B × S)
  pub get_sub_box_by_up2p : String → S → Option (Got E B × S)

module _ {S E B : Type 0} (box : DeviceBox S E B) where
  unfoldable pub get_sub_box_by_sub_type : String → String → S → Option (Got E B × S)
  get_sub_box_by_sub_type name sub_type s =
      if str_eq sub_type "SubTypeProxy"
      then box.get_sub_box name s
      else if str_eq sub_type "SubTypeP2P"
      then box.get_sub_box_by_p2p name s
      else if str_eq sub_type "SubTypeUP2P"
      then box.get_sub_box_by_up2p name s
      else some (failed sub_type_invalid, s)

  -- The loop: `done` holds the entries of `errs` so far, the others are nil.
  unfoldable pub nil_errs : List String → List (Option (SubError E))
  nil_errs [] = []
  nil_errs (_ ∷ ts) = none ∷ nil_errs ts

  unfoldable pub mix_loop :
      String
      → List (Option (SubError E))
      → List String
      → S
      → Option (Got E B × List (Option (SubError E)) × S)
  unfolding nil_errs
  mix_loop name done [] s = some (failed sub_type_to_mix_get_sub_box_failed, done, s)
  mix_loop name done (one ∷ ts) s = elim (get_sub_box_by_sub_type name one s) [
    | none ↦ none
    | some (failed e, s1) ↦ mix_loop name (done ++ some e ∷ []) ts s1
    | some (got sub, s1) ↦ some (got sub, done ++ none ∷ nil_errs ts, s1)
  ]

  unfoldable pub get_sub_box_by_sub_type_mix :
      String → List String → S → Option (Got E B × List (Option (SubError E)) × S)
  unfolding mix_loop
  get_sub_box_by_sub_type_mix name sub_types s = mix_loop name [] sub_types s

  -- The ways `ts` fail one after the other from `s` to `t`, with the errors `es`.
  pub data Fail (name : String) : List String → S → List (Option (SubError E)) → S → Type 0 where
    none_left : (s : S) → Fail name [] s [] s
    fails :
        (t : String) (ts : List String) (e : SubError E) (es : List (Option (SubError E)))
        (s s1 s2 : S)
        → get_sub_box_by_sub_type name t s ≡ some (failed e, s1)
        → Fail name ts s1 es s2
        → Fail name (t ∷ ts) s (some e ∷ es) s2

  -- One round of the loop, when the way `one` gives `p`.
  pub round :
      (name one : String) (done : List (Option (SubError E))) (ts : List String) (s : S)
      (p : Option (Got E B × S))
      → get_sub_box_by_sub_type name one s ≡ p
      → mix_loop name done (one ∷ ts) s ≡ (elim p [
        | none ↦ none
        | some (failed e, s1) ↦ mix_loop name (done ++ some e ∷ []) ts s1
        | some (got sub, s1) ↦ some (got sub, done ++ none ∷ nil_errs ts, s1)
      ])
  unfolding mix_loop
  round name one done ts s p h =
      ap
        (λ q. elim q as (λ _. Option (Got E B × List (Option (SubError E)) × S)) [
          | none ↦ none
          | some (failed e, s1) ↦ mix_loop name (done ++ some e ∷ []) ts s1
          | some (got sub, s1) ↦ some (got sub, done ++ none ∷ nil_errs ts, s1)
        ])
        h

  mix_loop-Fail :
      (name : String) (ts us : List String) (done es : List (Option (SubError E))) (s t : S)
      → Fail name ts s es t
      → mix_loop name done (ts ++ us) s ≡ mix_loop name (done ++ es) us t
  unfolding mix_loop
  mix_loop-Fail name _ us done _ s _ (none_left _) =
      ap (λ x. mix_loop name x us s) (sym (append-nil done))
  mix_loop-Fail name _ us done _ s t (fails one ts e es _ s1 _ h f) =
      round name one done (ts ++ us) s (some (failed e, s1)) h
      ∙ mix_loop-Fail name ts us (done ++ some e ∷ []) es s1 t f
      ∙ ap (λ x. mix_loop name x us t) (append_assoc done (some e ∷ []) es)

  -- Some ways fail one after the other, and then there is either one that succeeds, whatever ways
  -- follow, or no other one. GetSubBoxBySubTypeMix returns the sub box of that one, with the
  -- errors of the ways before it and nil for the rest, without trying them; or it fails, with the
  -- errors of all ways, in their order.
  pub get_sub_box_by_sub_type_mix_lem :
      (name : String) (ts : List String) (es : List (Option (SubError E))) (s t : S)
      → Fail name ts s es t
      → (get_sub_box_by_sub_type_mix name ts s
          ≡ some (failed sub_type_to_mix_get_sub_box_failed, es, t))
        × ((one : String) (us : List String) (sub : B) (u : S)
            → get_sub_box_by_sub_type name one t ≡ some (got sub, u)
            → get_sub_box_by_sub_type_mix name (ts ++ one ∷ us) s
              ≡ some (got sub, es ++ none ∷ nil_errs us, u))
  unfolding get_sub_box_by_sub_type_mix mix_loop
  get_sub_box_by_sub_type_mix_lem name ts es s t f = (
    ap (λ x. mix_loop name [] x s) (sym (append-nil ts)) ∙ mix_loop-Fail name ts [] [] es s t f,
    λ one us sub u h.
        mix_loop-Fail name ts (one ∷ us) [] es s t f ∙ round name one es us t (some (got sub, u)) h,
  )
