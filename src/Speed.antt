-- ===== src/Speed.antt =====
-- tool/speed.go: the ticker that counts the bytes of a second, and the views of two tickers.
-- Instants are nanoseconds, the zero time is 0. A count is an int, negative ones included, given
-- by its 64 bits as a number below 2 ^ 64, and sums wrap around. The texts of a view are left out:
-- formatSpeed, which prints them from its two numbers, is in Tools.
pub mod Counts
use go_cfc.Base.{ℕ, ◌+◌, ◌-◌, ◌*◌, ◌/◌, ◌%◌, ◌^◌, List, [], ◌∷◌, not, ltb, leb, ◌==◌, if◌then◌else◌}

-- `x + y` of two ints.
abbrev pub add_int : ℕ → ℕ → ℕ
add_int x y = (x + y) % 2 ^ 64

abbrev pub second : ℕ
second = 1000000000

-- `t.Round(time.Second)`
abbrev pub round_second : ℕ → ℕ
round_second t = (t + 500000000) / second * second

pub record SpeedTicker : Type 0 where
  pub read : ℕ
  pub write : ℕ
  pub t : ℕ

abbrev pub new_speed_ticker : SpeedTicker
new_speed_ticker = record { read = 0; write = 0; t = 0 }

-- st.Set(i) and st.Get() at the instant `now`; Get returns the number with the new ticker.
unfoldable pub set : ℕ → ℕ → SpeedTicker → SpeedTicker
set now i st =
    let t = round_second now in
    if not (st.t == t)
    then record { read = st.write; write = i; t = t }
    else record st { write = add_int st.write i }

unfoldable pub get : ℕ → SpeedTicker → ℕ × SpeedTicker
get now st =
    let t = round_second now in
    let s = t - st.t in
    if ltb second s
    then (
      0,
      record (if leb s (2 * second) then record { read = st.write; write = 0; t = t } else st) {
        read = 0;
      },
    )
    else (st.read, st)

pub record NetworkSpeedView : Type 0 where
  pub upload_speed : ℕ
  pub download_speed : ℕ

pub record NetworkSpeedTicker : Type 0 where
  pub upload : SpeedTicker
  pub download : SpeedTicker

abbrev pub new_network_speed_ticker : NetworkSpeedTicker
new_network_speed_ticker = record { upload = new_speed_ticker; download = new_speed_ticker }

unfoldable pub to_view : ℕ → NetworkSpeedTicker → NetworkSpeedView × NetworkSpeedTicker
unfolding get
to_view now n =
    let (u, upload) = get now n.upload in
    let (d, download) = get now n.download in
    (
      record { upload_speed = u; download_speed = d },
      record { upload = upload; download = download },
    )

-- The loop of CountAllNetworkSpeedView, from its partial sums on.
unfoldable pub count_loop : NetworkSpeedView → List NetworkSpeedView → NetworkSpeedView
count_loop resp [] = resp
count_loop resp (one ∷ list) =
    count_loop
      (record {
        upload_speed = add_int resp.upload_speed one.upload_speed;
        download_speed = add_int resp.download_speed one.download_speed;
      })
      list

unfoldable pub count_all_network_speed_view : List NetworkSpeedView → NetworkSpeedView
unfolding count_loop
count_all_network_speed_view list =
    count_loop (record { upload_speed = 0; download_speed = 0 }) list
