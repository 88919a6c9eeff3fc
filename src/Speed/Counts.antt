-- ===== src/Speed/Counts.antt =====
-- What the ticker counts in a second.
use go_cfc.Base.{ℕ, ◌+◌, ◌%◌, ◌^◌, ◌<◌, ◌≡◌, ◌≢◌, sym, ap, ◌∙◌, List, [], ◌∷◌, arith}
use go_cfc.Speed.{second, round_second, add_int, SpeedTicker, set, get}

-- The calls `st.Set(n)` at the instants of the list.
abbrev pub sets : List (ℕ × ℕ) → SpeedTicker → SpeedTicker
sets [] st = st
sets ((now, n) ∷ l) st = sets l (set now n st)

abbrev pub counts : List (ℕ × ℕ) → ℕ
counts [] = 0
counts ((now, n) ∷ l) = n + counts l

abbrev pub AllIn : ℕ → List (ℕ × ℕ) → Type 0
AllIn t [] = Unit {0}
AllIn t ((now, n) ∷ l) = (round_second now ≡ t) × AllIn t l

wraps : (w n c : ℕ) → (add_int w n < 2 ^ 64) × (add_int (add_int w n) c ≡ add_int w (n + c))
wraps w n c = (omega arith, omega arith)

sets_lem :
    (t : ℕ) (l : List (ℕ × ℕ)) (st : SpeedTicker)
    → st.t ≡ t
    → st.write < 2 ^ 64
    → AllIn t l
    → ((sets l st).write ≡ add_int st.write (counts l)) × ((sets l st).t ≡ t)
unfolding set
sets_lem t [] st e lt h = (omega (arith, lt), e)
sets_lem t ((now, n) ∷ l) st e lt (h, hs) =
    let (small, whole) = wraps st.write n (counts l) in
    let w : (set now n st).write ≡ add_int st.write n = ground arith in
    let (a, b) = sets_lem t l (set now n st) (ground arith) (rw w small) hs in
    (a ∙ ap (λ x. add_int x (counts l)) w ∙ whole, b)

first_set :
    (now n : ℕ) (st : SpeedTicker)
    → round_second now ≢ st.t
    → ((set now n st).write ≡ n) × ((set now n st).t ≡ round_second now)
unfolding set
first_set now n st new = (ground arith, ground arith)

next_second :
    (now n : ℕ) (st : SpeedTicker)
    → round_second now ≡ st.t + second
    → ((set now n st).read ≡ st.write) × ((set now n st).t ≡ round_second now)
unfolding set
next_second now n st new = (ground arith, ground arith)

get_now : (now : ℕ) (st : SpeedTicker) → round_second now ≡ st.t → (get now st).0 ≡ st.read
unfolding get
get_now now st e = ground arith

-- Each number that is counted is an int, given by its 64 bits. After a first call of Set in a new
-- second, and any calls in the same second, a call of Set in the next second makes Get return, in
-- that second, the sum of what was counted in the first one, modulo 2 ^ 64.
pub get-sets :
    (st : SpeedTicker) (now n : ℕ) (l : List (ℕ × ℕ)) (now2 n2 now3 : ℕ)
    → n < 2 ^ 64
    → round_second now ≢ st.t
    → AllIn (round_second now) l
    → round_second now2 ≡ round_second now + second
    → round_second now3 ≡ round_second now2
    → (get now3 (set now2 n2 (sets l (set now n st)))).0 ≡ (n + counts l) % 2 ^ 64
get-sets st now n l now2 n2 now3 small new same after last =
    let (a, b) = first_set now n st new in
    let (c, d) = sets_lem (round_second now) l (set now n st) b (rw a small) same in
    let st1 = sets l (set now n st) in
    let (e, f) = next_second now2 n2 st1 (after ∙ ap (λ t. t + second) (sym d)) in
    get_now now3 (set now2 n2 st1) (last ∙ sym f) ∙ e ∙ c ∙ ap (λ x. add_int x (counts l)) a
