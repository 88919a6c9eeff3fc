-- ===== src/Server/Piping/Order.antt =====
-- What a pair of pipes promises: bytes come out in the order in which they were put in.
use go_cfc.Base.{
  ℕ, ◌≡◌, ◌⊎◌, inl, inr, refl, sym, ap, ◌∙◌, Bool, false, [], ◌++◌, Bytes, take, drop,
}
use mathlib.Core.List.{append_assoc, append-nil}
use go_cfc.Base.Lists.{take-append-drop}
use go_cfc.Server.Piping.Pipes.{
  Pipe, Duplex, Spec, ends, puts, puts_back, delivers, delivers_back, cuts, put, deliver,
}

-- From one pipe to another, with `x` put in: what was delivered is the beginning of what was
-- delivered and in flight and put in, and what is in flight is the rest, while the link is alive.
pub record InOrder (p : Pipe) (x : Bytes) (p' : Pipe) (alive : Bool) : Type 0 where
  pub all : (alive ≡ false) ⊎ (p'.delivered ++ p'.flight ≡ p.delivered ++ (p.flight ++ x))
  pub rest : Bytes
  pub beginning : p'.delivered ++ rest ≡ p.delivered ++ (p.flight ++ x)

-- A link that is not alive delivers nothing.
pub dead :
    (d e : Duplex) (x y : Bytes)
    → Spec d x y e
    → d.alive ≡ false
    → (e.alive ≡ false)
      × (e.there.delivered ≡ d.there.delivered)
      × (e.back.delivered ≡ d.back.delivered)
dead d _ _ _ (ends _) off = (off, refl, refl)
dead d e _ y (puts b x _ _ _ later) off = dead _ e x y later off
dead d e x _ (puts_back b _ y _ _ later) off = dead _ e x y later off
dead d e x y (delivers n _ _ _ _ on later) off = absurd (let no : ⊥ = cc in no)
dead d e x y (delivers_back n _ _ _ _ on later) off = absurd (let no : ⊥ = cc in no)
dead d e x y (cuts n m _ _ _ _ later) off = dead _ e x y later refl

nothing-InOrder : (p : Pipe) (alive : Bool) → InOrder p [] p alive
nothing-InOrder p alive = record {
  all = inr (ap (λ z. p.delivered ++ z) (sym (append-nil p.flight)));
  rest = p.flight;
  beginning = ap (λ z. p.delivered ++ z) (sym (append-nil p.flight));
}

put-InOrder :
    (p p' : Pipe) (b x : Bytes) (alive : Bool)
    → InOrder (put b p) x p' alive
    → InOrder p (b ++ x) p' alive
put-InOrder p p' b x alive i =
    let more = ap (λ z. p.delivered ++ z) (append_assoc p.flight b x) in
    record {
      all = elim i.all [ inl off ↦ inl off | inr h ↦ inr (h ∙ more) ];
      rest = i.rest;
      beginning = i.beginning ∙ more;
    }

deliver-InOrder :
    (p p' : Pipe) (n : ℕ) (x : Bytes) (alive : Bool)
    → InOrder (deliver n p) x p' alive
    → InOrder p x p' alive
deliver-InOrder p p' n x alive i =
    let same =
      append_assoc p.delivered (take n p.flight) (drop n p.flight ++ x)
      ∙ ap (λ z. p.delivered ++ z)
          (sym (append_assoc (take n p.flight) (drop n p.flight) x)
            ∙ ap (λ z. z ++ x) (take-append-drop n p.flight)) in
    record {
      all = elim i.all [ inl off ↦ inl off | inr h ↦ inr (h ∙ same) ];
      rest = i.rest;
      beginning = i.beginning ∙ same;
    }

lose-InOrder :
    (p p' : Pipe) (x : Bytes) (alive : Bool)
    → alive ≡ false
    → p'.delivered ≡ p.delivered
    → InOrder p x p' alive
lose-InOrder p p' x alive off same = record {
  all = inl off;
  rest = p.flight ++ x;
  beginning = ap (λ z. z ++ (p.flight ++ x)) same;
}

pub Spec-InOrder :
    (d e : Duplex) (x y : Bytes)
    → Spec d x y e
    → InOrder d.there x e.there e.alive × InOrder d.back y e.back e.alive
Spec-InOrder d _ _ _ (ends _) = (nothing-InOrder d.there d.alive, nothing-InOrder d.back d.alive)
Spec-InOrder d e _ y (puts b x _ _ _ later) =
    let (i, j) = Spec-InOrder _ e x y later in (put-InOrder d.there e.there b x e.alive i, j)
Spec-InOrder d e x _ (puts_back b _ y _ _ later) =
    let (i, j) = Spec-InOrder _ e x y later in (i, put-InOrder d.back e.back b y e.alive j)
Spec-InOrder d e x y (delivers n _ _ _ _ on later) =
    let (i, j) = Spec-InOrder _ e x y later in (deliver-InOrder d.there e.there n x e.alive i, j)
Spec-InOrder d e x y (delivers_back n _ _ _ _ on later) =
    let (i, j) = Spec-InOrder _ e x y later in (i, deliver-InOrder d.back e.back n y e.alive j)
Spec-InOrder d e x y (cuts n m _ _ _ _ later) =
    let (off, there, back) = dead _ e x y later refl in
    (
      lose-InOrder d.there e.there x e.alive off there,
      lose-InOrder d.back e.back y e.alive off back,
    )
