-- ===== src/Tools/Texts.antt =====
-- The texts that the helpers make: ids, and speeds with their units.
use go_cfc.Base.{
  ℕ, zero, suc, ◌+◌, ◌*◌, ◌<◌, ◌≤◌, ◌≡◌, ◌⊎◌, inl, inr, refl, Option, some, [], ◌∷◌, ◌++◌, Bytes,
  length, length-append, ltb, ◌==◌, if◌then◌else◌, codes, arith, if_case,
}
use go_cfc.Tools.{strip_dashes, new_id, format_speed}

-- How many dashes a text has.
abbrev pub dashes : Bytes → ℕ
dashes [] = 0
dashes (c ∷ cs) = if c == 45 then suc (dashes cs) else dashes cs

length-strip_dashes : (s : Bytes) → length (strip_dashes s) + dashes s ≡ length s
unfolding strip_dashes
length-strip_dashes [] = refl
length-strip_dashes (c ∷ cs) = ground (arith, length-strip_dashes cs)

dashes-strip_dashes : (s : Bytes) → dashes (strip_dashes s) ≡ 0
unfolding strip_dashes
dashes-strip_dashes [] = refl
dashes-strip_dashes (c ∷ cs) = ground (arith, dashes-strip_dashes cs)

dashes-append : (s t : Bytes) → dashes (s ++ t) ≡ dashes s + dashes t
dashes-append [] t = omega arith
dashes-append (c ∷ cs) t = ground (arith, dashes-append cs t)

new_id_lem :
    (uuid : ℕ → Option Bytes) (n i : ℕ) (str : Bytes)
    → ((j : ℕ) → (text : Bytes) × (uuid j ≡ some text) × (length text ≡ 36) × (dashes text ≡ 4))
    → dashes str ≡ 0
    → (id : Bytes) × (new_id uuid n i str ≡ some id)
      × (length id ≡ length str + 32 * n)
      × (dashes id ≡ 0)
unfolding new_id
new_id_lem uuid zero i str h none_yet = (str, refl, omega arith, none_yet)
new_id_lem uuid (suc n) i str h none_yet =
    let (text, made, long, four) = h i in
    let next = str ++ strip_dashes text in
    let clean : dashes next ≡ 0 =
      omega (arith, dashes-append str (strip_dashes text), dashes-strip_dashes text, none_yet) in
    let (id, done, size, bare) = new_id_lem uuid n (suc i) next h clean in
    (
      id,
      rw (new_id, made) done,
      omega (
        arith,
        size,
        length-append str (strip_dashes text),
        length-strip_dashes text,
        long,
        four,
      ),
      bare,
    )

-- If every uuid has 36 letters with 4 dashes among them, as they are documented to have, NewId(n)
-- does not panic, and its id has 32 letters for each of the n uuids, and no dash.
pub new_id_long :
    (uuid : ℕ → Option Bytes) (n : ℕ)
    → ((j : ℕ) → (text : Bytes) × (uuid j ≡ some text) × (length text ≡ 36) × (dashes text ≡ 4))
    → (id : Bytes) × (new_id uuid n 0 [] ≡ some id) × (length id ≡ 32 * n) × (dashes id ≡ 0)
new_id_long uuid n h =
    let (id, made, size, bare) = new_id_lem uuid n 0 [] h refl in
    (id, made, omega (arith, size), bare)

-- What a unit promises of the number before it: not below 1, unless the speed is, and below 1024,
-- unless it is the last unit.
abbrev pub Fits : (two_places : ℕ → ℕ → Bytes) → ℕ → Bytes → Type 0
Fits two_places n text =
    (size : ℕ) × ((unit : Bytes) × (text ≡ two_places n size ++ unit)
      × ((n < 1024) ⊎ (size ≤ n))
      × ((unit ≡ codes "EB/s") ⊎ (n < 1024 * size)))

-- For every speed, formatSpeed prints its quotient by the size of a unit, and the unit: the quotient
-- is at least 1, for a speed of 1024 or more, and below 1024, unless the unit is the last one.
pub format_speed-Fits :
    (two_places : ℕ → ℕ → Bytes) (n : ℕ) → Fits two_places n (format_speed two_places n)
unfolding format_speed
format_speed-Fits two_places n =
    if_case (Fits two_places n) (ltb n 1024)
      (λ h. let lt : n < 1024 = ground arith in (1, (codes "B/s", refl, inl lt, inr (omega arith))))
      (λ h.
        if_case (Fits two_places n) (ltb n (1024 * 1024))
          (λ h'. (1024, (codes "KB/s", refl, inr (ground arith), inr (ground arith))))
          (λ h'.
            if_case (Fits two_places n) (ltb n (1024 * 1024 * 1024))
              (λ h''. (1024 * 1024, (codes "MB/s", refl, inr (ground arith), inr (ground arith))))
              (λ h''.
                if_case (Fits two_places n) (ltb n (1024 * 1024 * 1024 * 1024))
                  (λ g. (
                    1024 * 1024 * 1024,
                    (codes "GB/s", refl, inr (ground arith), inr (ground arith)),
                  ))
                  (λ g.
                    if_case (Fits two_places n) (ltb n (1024 * 1024 * 1024 * 1024 * 1024))
                      (λ g'. (
                        1024 * 1024 * 1024 * 1024,
                        (codes "TB/s", refl, inr (ground arith), inr (ground arith)),
                      ))
                      (λ g'. (
                        1024 * 1024 * 1024 * 1024 * 1024,
                        (codes "EB/s", refl, inr (ground arith), inl refl),
                      ))))))
