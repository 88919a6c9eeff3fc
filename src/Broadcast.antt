-- ===== src/Broadcast.antt =====
-- complexRW/rw.go: what is written to a broadcast is copied to its listeners by a goroutine. A
-- listener is found under its RWId, and `heard` is what was written to it; its errors are ignored.
-- The value in the channel `stop` is put back by whoever takes it, so it is a flag. The channel
-- `spokesman` has a buffer of `size`, which is not 0.
pub mod Hearing
use go_cfc.Base.{
  ℕ, suc, Bool, true, false, Option, none, some, List, [], ◌∷◌, ◌++◌, Bytes, length, ltb, ◌==◌,
  if◌then◌else◌,
}

pub record RwBroadcast : Type 0 where
  pub size : ℕ
  pub spokesman : List Bytes
  pub listener : ℕ → Bool
  pub count : ℕ
  pub once : Bool
  pub stop : Bool
  -- whether the goroutine that copies still runs
  pub copying : Bool
  pub heard : ℕ → List Bytes

unfoldable pub new_rw_broadcast : ℕ → RwBroadcast
new_rw_broadcast size = record {
  size = size;
  spokesman = [];
  listener = λ id. false;
  count = 0;
  once = false;
  stop = false;
  copying = true;
  heard = λ id. [];
}

unfoldable pub close_rw : RwBroadcast → RwBroadcast
close_rw rwb = if rwb.once then rwb else record rwb { once = true; stop = true }

-- The cases of a select.
pub data Case : Type 0 where
  stopped spoken : Case

-- Write by the given case; `none` is a case that is not ready, and the number is what Write
-- returns, with `none` for its error.
unfoldable pub write_rw : Case → Bytes → RwBroadcast → Option (Option ℕ × RwBroadcast)
write_rw stopped b rwb = if rwb.stop then some (none, rwb) else none
write_rw spoken b rwb =
    if ltb (length rwb.spokesman) rwb.size
    then some (some (length b), record rwb { spokesman = rwb.spokesman ++ b ∷ [] })
    else none

unfoldable pub set_listener : RwBroadcast → ℕ × RwBroadcast
set_listener rwb =
    let id = suc rwb.count in
    (id, record rwb { count = id; listener = λ i. if i == id then true else rwb.listener i })

unfoldable pub del_listener : ℕ → RwBroadcast → RwBroadcast
del_listener id rwb = record rwb { listener = λ i. if i == id then false else rwb.listener i }

unfoldable pub all_rw_copy : Bytes → RwBroadcast → RwBroadcast
all_rw_copy b rwb = record rwb {
  heard = λ i. if rwb.listener i then rwb.heard i ++ b ∷ [] else rwb.heard i;
}

-- A round of the goroutine.
unfoldable pub copy_loop : Case → RwBroadcast → Option RwBroadcast
unfolding all_rw_copy
copy_loop stopped rwb = if rwb.stop then some (record rwb { copying = false }) else none
copy_loop spoken rwb = elim rwb.spokesman [
  | [] ↦ none
  | b ∷ bs ↦ some (all_rw_copy b (record rwb { spokesman = bs }))
]

-- The goroutine that writes what is read of `rw`, with the cases that its Writes take; an error of
-- rw.Read (`none`) ends it, and the errors of its Writes are ignored.
unfoldable pub feed : List (Option (Case × Bytes)) → RwBroadcast → Option RwBroadcast
unfolding write_rw
feed [] rwb = some rwb
feed (none ∷ reads) rwb = some rwb
feed (some (c, b) ∷ reads) rwb = elim (write_rw c b rwb) [
  | none ↦ none
  | some (_, rwb') ↦ feed reads rwb'
]
