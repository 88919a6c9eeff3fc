-- ===== src/LinkBox/Copying.antt =====
-- Two boxes in a row, without functions: what comes out is what went in.
use go_cfc.Base.{
  ℕ, ◌≡◌, refl, sym, ap, ◌∙◌, Bool, Option, none, some, List, [], ◌∷◌, ◌++◌, Bytes, concat, take,
  drop, arith, Bool-cases, inl, inr, subst,
}
use Prim.Native.Nat.{min}
use go_cfc.Base.Lists.{take-append-drop}
use mathlib.Core.List.{append_assoc, append-nil}
use go_cfc.LinkBox.{
  LinkBox, done, write_list, read_some, read_link_box_to_writer, writes, write_link_box_from_reader,
}

-- Rounds in both directions, as they come, that all return nil: bytes go from the link to a writer
-- that has got `out`, and from a reader whose unread bytes are `s` to the link.
pub data Rounds : LinkBox → Bytes → List Bytes → LinkBox → Bytes → List Bytes → Type 0 where
  stops : (lb : LinkBox) (s : Bytes) (out : List Bytes) → Rounds lb s out lb s out
  reads :
      (got : Option ℕ) (accepts : ℕ → Bool) (lb lb1 lb2 : LinkBox) (s s2 : Bytes)
      (out out1 out2 : List Bytes)
      → read_link_box_to_writer got accepts lb out ≡ (done, lb1, out1)
      → Rounds lb1 s out1 lb2 s2 out2
      → Rounds lb s out lb2 s2 out2
  sends :
      (got : Option ℕ) (accepts : ℕ → Bool) (size : ℕ) (lb lb1 lb2 : LinkBox) (s s1 s2 : Bytes)
      (out out2 : List Bytes)
      → write_link_box_from_reader got accepts size s lb ≡ (done, lb1, s1)
      → Rounds lb1 s1 out lb2 s2 out2
      → Rounds lb s out lb2 s2 out2

concat-snoc :
    (out : List Bytes) (b rest : Bytes) → concat (out ++ b ∷ []) ++ rest ≡ concat out ++ (b ++ rest)
concat-snoc [] b rest = ap (λ x. x ++ rest) (append-nil b)
concat-snoc (x ∷ out) b rest =
    append_assoc x (concat (out ++ b ∷ [])) rest
    ∙ ap (λ y. x ++ y) (concat-snoc out b rest)
    ∙ sym (append_assoc x (concat out) (b ++ rest))

piece :
    (n : ℕ) (s : Bytes) (out : List Bytes)
    → concat (out ++ take n s ∷ []) ++ drop n s ≡ concat out ++ s
piece n s out =
    concat-snoc out (take n s) (drop n s) ∙ ap (λ x. concat out ++ x) (take-append-drop n s)

-- What one round keeps.
pub record Kept (lb : LinkBox) (s : Bytes) (out : List Bytes) (lb' : LinkBox) (s' : Bytes)
    (out' : List Bytes) : Type 0 where
  pub outward : concat out' ++ lb'.link_reader ≡ concat out ++ lb.link_reader
  pub inward : concat lb'.link_written ++ s' ≡ concat lb.link_written ++ s
  pub same_read_fn : lb'.link_read_fn ≡ lb.link_read_fn
  pub same_write_fn : lb'.link_write_fn ≡ lb.link_write_fn

read_lem :
    (got : Option ℕ) (accepts : ℕ → Bool) (lb lb1 : LinkBox) (s : Bytes) (out out1 : List Bytes)
    → lb.link_write_fn ≡ none
    → read_link_box_to_writer got accepts lb out ≡ (done, lb1, out1)
    → Kept lb s out lb1 s out1
unfolding read_link_box_to_writer write_list read_some
read_lem none accepts lb lb1 s out out1 raw h = let no : ⊥ = ground arith in absurd no
read_lem (some n) accepts lb lb1 s out out1 raw h = elim (Bool-cases (accepts 0)) [
  | inr stop ↦ let no : ⊥ = ground arith in absurd no
  | inl go ↦
      let size = min n lb.readr_size in
      let box = record lb { link_reader = drop size lb.link_reader } in
      let same : box ≡ lb1 = ground arith in
      let got_it : out ++ take size lb.link_reader ∷ [] ≡ out1 = ground arith in
      subst (λ x. Kept lb s out x s out1) same
        (subst (λ x. Kept lb s out box s x) got_it
          (record {
            outward = piece size lb.link_reader out;
            inward = refl;
            same_read_fn = refl;
            same_write_fn = refl;
          }))
]

write_lem :
    (got : Option ℕ) (accepts : ℕ → Bool) (size : ℕ) (lb lb1 : LinkBox) (s s1 : Bytes)
    (out : List Bytes)
    → lb.link_read_fn ≡ none
    → write_link_box_from_reader got accepts size s lb ≡ (done, lb1, s1)
    → Kept lb s out lb1 s1 out
unfolding write_link_box_from_reader write_list read_some writes
write_lem none accepts size lb lb1 s s1 out raw h = let no : ⊥ = ground arith in absurd no
write_lem (some n) accepts size lb lb1 s s1 out raw h = elim (Bool-cases (accepts 0)) [
  | inr stop ↦ let no : ⊥ = ground arith in absurd no
  | inl go ↦
      let same : record lb { link_written = lb.link_written ++ take (min n size) s ∷ [] } ≡ lb1 =
        ground arith in
      let rest : drop (min n size) s ≡ s1 = ground arith in
      subst (λ x. Kept lb s out x s1 out) same
        (subst
          (λ x.
            Kept lb s out (record lb { link_written = lb.link_written ++ take (min n size) s ∷ [] })
              x out)
          rest
          (record {
            outward = refl;
            inward = piece (min n size) s lb.link_written;
            same_read_fn = refl;
            same_write_fn = refl;
          }))
]

-- A box without functions, and any rounds in both directions that return nil: what the writer has
-- got, followed by what is still unread of the link, is what it was, and so is what was written to
-- the link, followed by what is still unread of the other side. No byte is lost, doubled or moved,
-- and the two directions do not mix.
pub link_box_copies :
    (lb lb' : LinkBox) (s s' : Bytes) (out out' : List Bytes)
    → lb.link_read_fn ≡ none
    → lb.link_write_fn ≡ none
    → Rounds lb s out lb' s' out'
    → (concat out' ++ lb'.link_reader ≡ concat out ++ lb.link_reader)
      × (concat lb'.link_written ++ s' ≡ concat lb.link_written ++ s)
link_box_copies lb _ s _ out _ r w (stops _ _ _) = (refl, refl)
link_box_copies lb lb' s s' out out' r w (reads got accepts _ lb1 _ _ _ _ out1 _ h g) =
    let k = read_lem got accepts lb lb1 s out out1 w h in
    let (a, b) =
      link_box_copies lb1 lb' s s' out1 out' (k.same_read_fn ∙ r) (k.same_write_fn ∙ w) g in
    (a ∙ k.outward, b ∙ k.inward)
link_box_copies lb lb' s s' out out' r w (sends got accepts size _ lb1 _ _ s1 _ _ _ h g) =
    let k = write_lem got accepts size lb lb1 s s1 out r h in
    let (a, b) =
      link_box_copies lb1 lb' s1 s' out out' (k.same_read_fn ∙ r) (k.same_write_fn ∙ w) g in
    (a ∙ k.outward, b ∙ k.inward)
