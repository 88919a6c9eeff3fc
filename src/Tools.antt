-- ===== src/Tools.antt =====
-- The helpers of tool/tool.go, tool/cMsgNotKey.go, tool/cMsgErr.go and tool/speed.go. What encoding/json, time.ParseDuration, uuid
-- and net give is an argument; a text is the list of its bytes.
pub mod Rerun
pub mod Texts
mod Runs
use go_cfc.Base.{
  ℕ, zero, suc, ◌*◌, Bool, Option, none, some, List, [], ◌∷◌, ◌++◌, String, Bytes, ltb, ◌==◌,
  if◌then◌else◌, codes,
}
use go_cfc.Wire.Message.{ConnMsg}

-- strings.Replace(text, "-", "", -1)
unfoldable pub strip_dashes : Bytes → Bytes
strip_dashes [] = []
strip_dashes (c ∷ cs) = if c == 45 then strip_dashes cs else c ∷ strip_dashes cs

-- The loop of NewId, where `uuid i` is the text of the i-th uuid or an error, which panics.
unfoldable pub new_id : (uuid : ℕ → Option Bytes) → ℕ → ℕ → Bytes → Option Bytes
unfolding strip_dashes
new_id uuid zero i str = some str
new_id uuid (suc n) i str = elim (uuid i) [
  | none ↦ none
  | some text ↦ new_id uuid n (suc i) (str ++ strip_dashes text)
]

module _ {A B : Type 0} (marshal : A → Option Bytes) (unmarshal : Bytes → B → Option B) where
  -- MustUnmarshal into `body`, which no bytes leave as it is; `none` panics.
  unfoldable pub must_unmarshal : Bytes → B → Option B
  must_unmarshal [] body = some body
  must_unmarshal (c ∷ cs) body = unmarshal (c ∷ cs) body

  unfoldable pub must_marshal : A → Option Bytes
  must_marshal body = marshal body

  -- UnmarshalV2; `none` is an error.
  unfoldable pub unmarshal_v2 : A → B → Option B
  unmarshal_v2 in_body out_body = elim (marshal in_body) [
    | none ↦ none
    | some b ↦ unmarshal b out_body
  ]

  unfoldable pub must_unmarshal_v2 : A → B → Option B
  unfolding must_unmarshal must_marshal
  must_unmarshal_v2 in_body out_body = elim (must_marshal in_body) [
    | none ↦ none
    | some b ↦ must_unmarshal b out_body
  ]

-- MustResolveTCPAddr: an error gives nil.
unfoldable pub must_resolve_tcp_addr :
    (resolve : (network addr : String) → Option String) → (network addr : String) → Option String
must_resolve_tcp_addr resolve network addr = resolve network addr

-- A value with an error, or nil for no error.
abbrev pub WithError : Type 0 → Type 0
WithError A = A × Bool

-- tool/cMsgNotKey.go: messages as JSON without a key. `decode` gives the message as far as it was
-- read, and whether there was an error; `stream` is a reader with all that json.Decoder keeps.
module _ {D : Type 0} (decode : Bytes → WithError (ConnMsg D))
    (encode : ConnMsg D → Option Bytes) where
  unfoldable pub read_c_msg_not_key_json : Bytes → WithError (ConnMsg D)
  read_c_msg_not_key_json b = decode b

  unfoldable pub write_c_msg_not_key_json : ConnMsg D → Option Bytes
  write_c_msg_not_key_json m = encode m

  unfoldable pub must_read_c_msg_not_key_json : Bytes → Option (ConnMsg D)
  unfolding read_c_msg_not_key_json
  must_read_c_msg_not_key_json b =
      let (m, failed) = read_c_msg_not_key_json b in if failed then none else some m

  unfoldable pub must_write_c_msg_not_key_json : ConnMsg D → Option Bytes
  unfolding write_c_msg_not_key_json
  must_write_c_msg_not_key_json m = write_c_msg_not_key_json m

module _ {D S : Type 0} (next : S → WithError (ConnMsg D)) where
  unfoldable pub read_c_msg_not_key_json2 : S → WithError (ConnMsg D)
  read_c_msg_not_key_json2 stream = next stream

  unfoldable pub must_read_c_msg_not_key_json2 : S → Option (ConnMsg D)
  unfolding read_c_msg_not_key_json2
  must_read_c_msg_not_key_json2 stream =
      let (m, failed) = read_c_msg_not_key_json2 stream in if failed then none else some m

-- ErrAppend, where an error is its text and nil is none: strings.Join of those that are not nil.
unfoldable pub error_texts : List (Option Bytes) → List Bytes
error_texts [] = []
error_texts (none ∷ errs) = error_texts errs
error_texts (some text ∷ errs) = text ∷ error_texts errs

unfoldable pub join : Bytes → List Bytes → Bytes
join sep [] = []
join sep (a ∷ []) = a
join sep (a ∷ b ∷ rest) = a ++ (sep ++ join sep (b ∷ rest))

unfoldable pub err_append : Option Bytes → List (Option Bytes) → Option Bytes
unfolding error_texts join
err_append none errs = none
err_append (some raw) errs = elim (error_texts errs) as (λ _. Option Bytes) [
  | [] ↦ some raw
  | a ∷ rest ↦ some (raw ++ (codes " : [ " ++ (join (codes " | ") (a ∷ rest) ++ codes " ]")))
]

-- formatSpeed, where `two_places a b` is what `%.2f` prints of the quotient of `a` and `b`.
unfoldable pub format_speed : (two_places : ℕ → ℕ → Bytes) → ℕ → Bytes
format_speed two_places n =
    if ltb n 1024
    then two_places n 1 ++ codes "B/s"
    else if ltb n (1024 * 1024)
    then two_places n 1024 ++ codes "KB/s"
    else if ltb n (1024 * 1024 * 1024)
    then two_places n (1024 * 1024) ++ codes "MB/s"
    else if ltb n (1024 * 1024 * 1024 * 1024)
    then two_places n (1024 * 1024 * 1024) ++ codes "GB/s"
    else if ltb n (1024 * 1024 * 1024 * 1024 * 1024)
    then two_places n (1024 * 1024 * 1024 * 1024) ++ codes "TB/s"
    else two_places n (1024 * 1024 * 1024 * 1024 * 1024) ++ codes "EB/s"
