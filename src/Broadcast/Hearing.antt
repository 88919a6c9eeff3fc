-- ===== src/Broadcast/Hearing.antt =====
-- Listeners hear everything that is written, in order.
use go_cfc.Base.{
  ℕ, ◌≡◌, ◌≢◌, refl, sym, ap, ◌∙◌, true, false, Option, some, List, [], ◌∷◌, ◌++◌, Bytes, arith,
  subst, inl, inr, Bool-cases,
}
use mathlib.Core.List.{append_assoc, append-nil}
use go_cfc.Broadcast.{
  RwBroadcast, close_rw, Case, stopped, spoken, write_rw, set_listener, del_listener, all_rw_copy,
  copy_loop,
}

-- From one state to another, by calls and rounds of the goroutine; the list is what Write took.
-- The listener `id` is not deleted.
pub data Goes (id : ℕ) : RwBroadcast → List Bytes → RwBroadcast → Type 0 where
  stays : (s : RwBroadcast) → Goes id s [] s
  closes : (s t : RwBroadcast) (bs : List Bytes) → Goes id (close_rw s) bs t → Goes id s bs t
  sets : (s t : RwBroadcast) (bs : List Bytes) → Goes id (set_listener s).1 bs t → Goes id s bs t
  dels :
      (i : ℕ) (s t : RwBroadcast) (bs : List Bytes)
      → i ≢ id
      → Goes id (del_listener i s) bs t
      → Goes id s bs t
  refuses :
      (b : Bytes) (n : Option ℕ) (s s1 t : RwBroadcast) (bs : List Bytes)
      → write_rw stopped b s ≡ some (n, s1)
      → Goes id s1 bs t
      → Goes id s bs t
  writes :
      (b : Bytes) (n : ℕ) (s s1 t : RwBroadcast) (bs : List Bytes)
      → write_rw spoken b s ≡ some (some n, s1)
      → Goes id s1 bs t
      → Goes id s (b ∷ bs) t
  copies :
      (c : Case) (s s1 t : RwBroadcast) (bs : List Bytes)
      → s.copying ≡ true
      → copy_loop c s ≡ some s1
      → Goes id s1 bs t
      → Goes id s bs t

-- What the listener has heard, and what is still to be copied.
abbrev pub all_of : ℕ → RwBroadcast → List Bytes
all_of id s = s.heard id ++ s.spokesman

pub write_rw_lem :
    (id : ℕ) (b : Bytes) (n : ℕ) (s t : RwBroadcast)
    → write_rw spoken b s ≡ some (some n, t)
    → (all_of id t ≡ s.heard id ++ (s.spokesman ++ b ∷ [])) × (t.listener id ≡ s.listener id)
unfolding write_rw
write_rw_lem id b n s t h =
    let same : record s { spokesman = s.spokesman ++ b ∷ [] } ≡ t = ground arith in
    subst
      (λ u. (all_of id u ≡ s.heard id ++ (s.spokesman ++ b ∷ [])) × (u.listener id ≡ s.listener id))
      same (refl, refl)

copied :
    (id : ℕ) (b : Bytes) (bs : List Bytes) (s : RwBroadcast)
    → s.spokesman ≡ b ∷ bs
    → s.listener id ≡ true
    → all_of id (all_rw_copy b (record s { spokesman = bs })) ≡ all_of id s
unfolding all_rw_copy
copied id b bs s e h = rw (h, e) (append_assoc (s.heard id) (b ∷ []) bs)

copy_loop_lem :
    (id : ℕ) (c : Case) (s t : RwBroadcast)
    → copy_loop c s ≡ some t
    → s.listener id ≡ true
    → (all_of id t ≡ all_of id s) × (t.listener id ≡ true)
unfolding copy_loop all_rw_copy
copy_loop_lem id stopped s t h l =
    let same : record s { copying = false } ≡ t = ground arith in
    subst (λ u. (all_of id u ≡ all_of id s) × (u.listener id ≡ true)) same (refl, l)
copy_loop_lem id spoken s t h l = pick s.spokesman refl
  where
    pick : (q : List Bytes) → s.spokesman ≡ q → (all_of id t ≡ all_of id s) × (t.listener id ≡ true)
    pick [] e = let no : ⊥ = ground arith in absurd no
    pick (b ∷ bs) e =
        let same : all_rw_copy b (record s { spokesman = bs }) ≡ t = ground arith in
        subst (λ u. (all_of id u ≡ all_of id s) × (u.listener id ≡ true)) same
          (copied id b bs s e l, l)

close_rw_lem :
    (id : ℕ) (s : RwBroadcast)
    → (all_of id (close_rw s) ≡ all_of id s) × ((close_rw s).listener id ≡ s.listener id)
unfolding close_rw
close_rw_lem id s = elim (Bool-cases s.once) [
  | inl h ↦ (ground arith, ground arith)
  | inr h ↦ (ground arith, ground arith)
]

set_listener_lem :
    (id : ℕ) (s : RwBroadcast) → s.listener id ≡ true → (set_listener s).1.listener id ≡ true
unfolding set_listener
set_listener_lem id s l = ground arith

del_listener_lem :
    (id i : ℕ) (s : RwBroadcast)
    → i ≢ id
    → s.listener id ≡ true
    → (del_listener i s).listener id ≡ true
unfolding del_listener
del_listener_lem id i s ne l = ground arith

refused_lem :
    (b : Bytes) (n : Option ℕ) (s t : RwBroadcast) → write_rw stopped b s ≡ some (n, t) → s ≡ t
unfolding write_rw
refused_lem b n s t h = ground arith

-- Whatever is done to a broadcast, other than deleting the listener `id`, which is set at the
-- beginning: what it has heard at the end, together with what is still to be copied, is what it
-- had heard and what was to be copied at the beginning, followed by all that Write took, in order.
pub heard_in_order :
    (id : ℕ) (s t : RwBroadcast) (bs : List Bytes)
    → s.listener id ≡ true
    → Goes id s bs t
    → all_of id t ≡ all_of id s ++ bs
unfolding set_listener del_listener
heard_in_order id s _ _ l (stays _) = sym (append-nil (all_of id s))
heard_in_order id s t bs l (closes _ _ _ g) =
    let (e, k) = close_rw_lem id s in
    heard_in_order id (close_rw s) t bs (k ∙ l) g ∙ ap (λ x. x ++ bs) e
heard_in_order id s t bs l (sets _ _ _ g) =
    heard_in_order id (set_listener s).1 t bs (set_listener_lem id s l) g
heard_in_order id s t bs l (dels i _ _ _ ne g) =
    heard_in_order id (del_listener i s) t bs (del_listener_lem id i s ne l) g
heard_in_order id s t bs l (refuses b n _ s1 _ _ h g) =
    let e = refused_lem b n s s1 h in
    heard_in_order id s1 t bs (ap (λ x. x.listener id) (sym e) ∙ l) g
    ∙ ap (λ x. all_of id x ++ bs) (sym e)
heard_in_order id s t _ l (writes b n _ s1 _ bs h g) =
    let (e, k) = write_rw_lem id b n s s1 h in
    heard_in_order id s1 t bs (k ∙ l) g
    ∙ ap (λ x. x ++ bs) (e ∙ sym (append_assoc (s.heard id) s.spokesman (b ∷ [])))
    ∙ append_assoc (all_of id s) (b ∷ []) bs
heard_in_order id s t bs l (copies c _ s1 _ _ on h g) =
    let (e, k) = copy_loop_lem id c s s1 h l in heard_in_order id s1 t bs k g ∙ ap (λ x. x ++ bs) e
