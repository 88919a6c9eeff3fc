-- ===== src/Client/Boxes/Closed.antt =====
-- What closing does to the sub boxes, and what it leaves alone.
use go_cfc.Base.{
  ℕ, zero, suc, ◌≡◌, refl, ◌∙◌, true, some, List, [], ◌∷◌, String, arith, Bool-cases, inl, inr,
}
use go_cfc.Base.Assoc.{lookup, lookup-delete}
use go_cfc.Client.State.{DeviceBox, update}
use go_cfc.Client.Boxes.{
  del_sub_box, close_conn, close_all_subs, close_sub_within, close_sub, close_range,
}

abbrev pub IsDisabled : DeviceBox → ℕ → Type 0
IsDisabled box q = (box.subs q).disable ≡ true

-- From `s` to `t` sub boxes are at most closed, and entries of the map at most deleted.
pub record Shuts (s t : DeviceBox) : Type 0 where
  pub kept : (q : ℕ) → IsDisabled s q → IsDisabled t q
  pub flags :
      ((q : ℕ) → (s.subs q).once ≡ true → IsDisabled s q)
      → (q : ℕ) → (t.subs q).once ≡ true
      → IsDisabled t q
  pub fewer : (key : String) (q : ℕ) → lookup key t.sub_map ≡ some q → lookup key s.sub_map ≡ some q
  pub same_disable : t.disable ≡ s.disable
  pub same_next : t.next ≡ s.next

pub Shuts-refl : {s : DeviceBox} → Shuts s s
Shuts-refl = record {
  kept = λ q h. h;
  flags = λ f. f;
  fewer = λ key q e. e;
  same_disable = refl;
  same_next = refl;
}

pub Shuts-trans : {s t u : DeviceBox} → Shuts s t → Shuts t u → Shuts s u
Shuts-trans a b = record {
  kept = λ q h. b.kept q (a.kept q h);
  flags = λ f. b.flags (a.flags f);
  fewer = λ key q e. a.fewer key q (b.fewer key q e);
  same_disable = b.same_disable ∙ a.same_disable;
  same_next = b.same_next ∙ a.same_next;
}

del_sub_box-Shuts : (key : String) (s : DeviceBox) → Shuts s (del_sub_box key s)
unfolding del_sub_box
del_sub_box-Shuts key s = record {
  kept = λ q h. h;
  flags = λ f. f;
  fewer = λ k q e. ground (arith, lookup-delete key k s.sub_map);
  same_disable = refl;
  same_next = refl;
}

conn-Shuts : (q : ℕ) (s : DeviceBox) → Shuts s (update q (λ c. (close_conn c).1) s)
unfolding update close_conn
conn-Shuts q s = record {
  kept = λ p h. ground arith;
  flags = λ f p h. ground (arith, f p);
  fewer = λ k p e. e;
  same_disable = refl;
  same_next = refl;
}

shut-Shuts :
    (q : ℕ) (s : DeviceBox)
    → Shuts s (update q (λ c. record (close_conn c).1 { once = true; disable = true }) s)
unfolding update close_conn
shut-Shuts q s = record {
  kept = λ p h. ground arith;
  flags = λ f p h. ground (arith, f p);
  fewer = λ k p e. e;
  same_disable = refl;
  same_next = refl;
}

shut-IsDisabled :
    (q : ℕ) (s : DeviceBox)
    → IsDisabled (update q (λ c. record (close_conn c).1 { once = true; disable = true }) s) q
unfolding update close_conn
shut-IsDisabled q s = ground arith

close_all_subs-Shuts :
    (f : ℕ → DeviceBox → DeviceBox)
    → ((q : ℕ) (s : DeviceBox) → Shuts s (f q s))
    → (subs : List (String × ℕ)) (s : DeviceBox) → Shuts s (close_all_subs f subs s)
unfolding close_all_subs
close_all_subs-Shuts f h [] s = Shuts-refl
close_all_subs-Shuts f h ((key, sub) ∷ subs) s =
    Shuts-trans (h sub s) (close_all_subs-Shuts f h subs (f sub s))

close_sub_within-Shuts : (fuel q : ℕ) (s : DeviceBox) → Shuts s (close_sub_within fuel q s)
unfolding close_sub_within
close_sub_within-Shuts zero q s = Shuts-refl
close_sub_within-Shuts (suc fuel) q s = elim (Bool-cases (s.subs q).once) [
  | inl h ↦ rw (h, close_sub_within) (conn-Shuts q s)
  | inr h ↦
      let s1 = update q (λ c. record (close_conn c).1 { once = true; disable = true }) s in
      let s2 = close_all_subs (close_sub_within fuel) (s.subs q).sub_map s1 in
      rw (h, close_sub_within)
        (Shuts-trans (shut-Shuts q s) (
          Shuts-trans
            (close_all_subs-Shuts (close_sub_within fuel) (close_sub_within-Shuts fuel)
              (s.subs q).sub_map s1)
            (del_sub_box-Shuts (s.subs q).id s2)))
]

pub close_sub-Shuts : (q : ℕ) (s : DeviceBox) → Shuts s (close_sub q s).1
unfolding close_sub
close_sub-Shuts q s = close_sub_within-Shuts (suc s.next) q s

pub close_sub_disables :
    (q : ℕ) (s : DeviceBox)
    → ((p : ℕ) → (s.subs p).once ≡ true → IsDisabled s p)
    → IsDisabled (close_sub q s).1 q
unfolding close_sub close_sub_within
close_sub_disables q s f = elim (Bool-cases (s.subs q).once) [
  | inl h ↦ rw (h, close_sub_within) ((conn-Shuts q s).kept q (f q h))
  | inr h ↦
      let s1 = update q (λ c. record (close_conn c).1 { once = true; disable = true }) s in
      let s2 = close_all_subs (close_sub_within s.next) (s.subs q).sub_map s1 in
      rw (h, close_sub_within)
        ((del_sub_box-Shuts (s.subs q).id s2).kept q (
          (close_all_subs-Shuts (close_sub_within s.next) (close_sub_within-Shuts s.next)
              (s.subs q).sub_map s1).kept
            q (shut-IsDisabled q s)))
]

-- The loop of Close: nothing that was in the map stays open.
pub close_range_lem :
    (subs : List (String × ℕ)) (s : DeviceBox)
    → ((p : ℕ) → (s.subs p).once ≡ true → IsDisabled s p)
    → Shuts s (close_range subs s)
      × ((key : String) (q : ℕ) → lookup key subs ≡ some q → IsDisabled (close_range subs s) q)
unfolding close_range lookup
close_range_lem [] s f = (Shuts-refl, λ key q e. ground arith)
close_range_lem ((j, p) ∷ subs) s f =
    let (a, b) = close_range_lem subs (close_sub p s).1 ((close_sub-Shuts p s).flags f) in
    (
      Shuts-trans (close_sub-Shuts p s) a,
      λ key q e. found key q (a.kept p (close_sub_disables p s f)) (b key q) e,
    )
  where
    found :
        (key : String) (q : ℕ)
        → IsDisabled (close_range subs (close_sub p s).1) p
        → (lookup key subs ≡ some q → IsDisabled (close_range subs (close_sub p s).1) q)
        → lookup key ((j, p) ∷ subs) ≡ some q
        → IsDisabled (close_range subs (close_sub p s).1) q
    found key q here there e = ground arith
