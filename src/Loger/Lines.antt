-- ===== src/Loger/Lines.antt =====
-- What the listeners of the logger get, and how its calls end.
use go_cfc.Base.{ℕ, zero, suc, ◌≡◌, Option, none, some, List, [], ◌∷◌, ◌++◌, Bytes, if◌then◌else◌}
use go_cfc.Broadcast.{RwBroadcast, spoken, copy_loop}
use go_cfc.Loger.{Logger, is_logged, line}

-- What a call of setLog adds to what a listener has heard or will hear.
abbrev pub added : Logger → (now stack body : Bytes) → ℕ → List Bytes
added l now stack body level = if is_logged l level then line l now stack body level ∷ [] else []

-- So many rounds of the goroutine that copies; `none` waits for something to copy.
abbrev pub drain : ℕ → RwBroadcast → Option RwBroadcast
drain zero s = some s
drain (suc n) s = elim (copy_loop spoken s) as (λ _. Option RwBroadcast) [
  | none ↦ none
  | some t ↦ drain n t
]

-- What a listener has heard, when it is also given `bs`.
abbrev pub hears : RwBroadcast → ℕ → List Bytes → List Bytes
hears s id bs = if s.listener id then s.heard id ++ bs else s.heard id

-- Everything is copied: the queue is empty, and each listener has heard `bs`.
record Copied (s : RwBroadcast) (bs : List Bytes) (t : RwBroadcast) : Type 0 where
  empty : t.spokesman ≡ []
  heard : (id : ℕ) → t.heard id ≡ hears s id bs
