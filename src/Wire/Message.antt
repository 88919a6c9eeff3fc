-- ===== src/Wire/Message.antt =====
-- tool/cMsgModel.go: ConnMsg and its check; tool/cMsgCrypto.go: Key, Encode, Decode, SetMsg;
-- tool/cMsgRead.go: ReadCMsg; tool/tool.go: the wrapping of byte slices as base64 text.
-- encoding/json and encoding/base64 are parameters: the record `Json` and its laws.
pub mod Packets
pub mod Progress
pub mod Sending
pub mod RoundTrip
use go_cfc.Base.{
  ℕ, zero, suc, ◌+◌, ◌-◌, ◌≡◌, Bool, true, false, not, Option, none, some, List, [], ◌∷◌, ◌++◌,
  String, str_eq, leb, ◌==◌, if◌then◌else◌, Bytes, length, drop,
}
use go_cfc.Base.Int.{ℤ, int_eq}
use go_cfc.Wire.Errors.{
  Result, ok, err, panic, stuck, ◌>>=◌, ◌>>◌, fail_if, must, bad_json, empty_data, eof,
}
use go_cfc.Wire.Cipher.{Gcm, encrypt, decrypt}
use go_cfc.Wire.Packet.{
  wait, last, get_header_size, buffer_size, split_loop, assembly_bytes, read_c_packet,
}

-- Data is an `interface{}`; `D` is what it may hold. The field is named `payload`.
pub record ConnMsg (D : Type 0) : Type 0 where
  pub header : String
  pub code : ℤ
  pub payload : D
  pub id : String

pub data CheckError : Type 0 where
  check_unexpected_header check_bad_any : CheckError

-- `none` is the nil error.
unfoldable pub check_conn_msg_header_and_code :
    {D : Type 0} → ConnMsg D → String → ℤ → Option CheckError
check_conn_msg_header_and_code c_msg header code =
    if not (str_eq c_msg.header header)
    then some check_unexpected_header
    else if not (int_eq c_msg.code code)
    then some check_bad_any
    else none

-- A `[]byte`, or any other value, seen as JSON.
pub data Data (J : Type 0) : Type 0 where
  bytes : Bytes → Data J
  value : J → Data J

pub record Json : Type 1 where
  pub J : Type 0
  -- the JSON object of `MashBytes{Data: str}`
  pub mash : Bytes → J
  -- `m, ok := v.(map[string]any)` and `m["go-CFC-Data"]`, if `ok` and that entry is not nil
  pub tagged : J → Option J
  -- `v.(string)`
  pub as_text : J → Option Bytes
  pub marshal : ConnMsg (Data J) → Option Bytes
  pub unmarshal : Bytes → Option (ConnMsg (Data J))
  pub encode64 : Bytes → Bytes
  pub decode64 : Bytes → Option Bytes

-- The documented behaviour of those packages.
pub record JsonLaws (json : Json) : Type 0 where
  pub as_text-tagged-mash :
      (str : Bytes)
      → (v : json.J) × (json.tagged (json.mash str) ≡ some v) × (json.as_text v ≡ some str)
  pub unmarshal-marshal :
      (m : ConnMsg (Data json.J)) (v : json.J) (b : Bytes)
      → m.payload ≡ value v
      → json.marshal m ≡ some b
      → json.unmarshal b ≡ some m
  pub decode64-encode64 : (b : Bytes) → json.decode64 (json.encode64 b) ≡ some b

-- `NewKey(key)` keeps the text and its bytes, which are one list here.
pub record Key : Type 0 where
  pub key : Bytes
  pub key_b : Bytes

unfoldable pub new_key : Bytes → Key
new_key key = record { key = key; key_b = key }

unfoldable pub get_raw_key : Key → Bytes
get_raw_key k = k.key

-- What a call of ReadCMsg leaves: its result, the bytes that are still unread, and the arguments
-- of the calls `speed.Set(n)`, in order.
pub record Reading (A : Type 0) : Type 0 where
  pub result : Result A
  pub rest : Bytes
  pub speed : List ℕ

module _ (g : Gcm) (k : Key) where
  -- The loop of ReadCMsg: `skip n` is the value of the flag at round `n`. Each round but the last
  -- consumes a packet, so one round more than there are bytes is enough.
  unfoldable pub read_packets : ℕ → (ℕ → Bool) → ℕ → Bytes → Bytes → List ℕ → Reading Bytes
  read_packets zero skip n s b speed = record { result = stuck; rest = s; speed = speed }
  read_packets (suc fuel) skip n s b speed = elim (read_c_packet g k.key_b (skip n) s) [
    | ok (wait b0) ↦ elim (leb (get_header_size + length b0) (length s)) [
      | true ↦
          read_packets fuel skip (suc n) (drop (get_header_size + length b0) s) (b ++ b0)
            (speed ++ (get_header_size + length b0) ∷ [])
      | false ↦ record { result = err eof; rest = []; speed = speed }
    ]
    | ok (last b0) ↦ elim (leb (get_header_size + length b0) (length s)) [
      | true ↦ record {
        result = ok (b ++ b0);
        rest = drop (get_header_size + length b0) s;
        speed = speed ++ (get_header_size + length b0) ∷ [];
      }
      | false ↦ record { result = err eof; rest = []; speed = speed }
    ]
    | err e ↦ record { result = err e; rest = s; speed = speed }
    | panic ↦ record { result = panic; rest = s; speed = speed }
    | stuck ↦ record { result = stuck; rest = s; speed = speed }
  ]

or_error {ℓ} : {A : Type ℓ} → Option A → Result A → Result A
or_error none e = e
or_error (some a) e = ok a

-- MustBase64ToBytes and MustBytesToBase64.
unfoldable pub must_base64_to_bytes : Json → Bytes → Result Bytes
unfolding or_error
must_base64_to_bytes json str = or_error (json.decode64 str) panic

unfoldable pub must_bytes_to_base64 : (json : Json) → Bytes → json.J
must_bytes_to_base64 json b = json.mash (json.encode64 b)

-- The end of ReadCMsg: a tagged object stands for a byte slice. A tag that is no text panics.
unfoldable pub untag : (json : Json) → Data json.J → Result (Data json.J)
unfolding or_error
untag json (bytes b) = ok (bytes b)
untag json (value v) = elim (json.tagged v) [
  | none ↦ ok (value v)
  | some t ↦ do
    str ← or_error (json.as_text t) panic
    b ← must_base64_to_bytes json str
    ok (bytes b)
]

-- The beginning of SetMsg.
unfoldable pub tag : (json : Json) → Data json.J → Data json.J
tag json (bytes b) = value (must_bytes_to_base64 json b)
tag json (value v) = value v

-- The package variable `debug`, which nothing sets.
abbrev pub debug : Bool
debug = false

module _ (g : Gcm) (json : Json) (k : Key) where
  abbrev pub Msg : Type 0
  Msg = ConnMsg (Data json.J)

  -- The message takes the draw `draw`, and its packets the next ones.
  unfoldable pub encode : ℕ → Msg → Result (List Bytes)
  unfolding or_error
  encode draw i = do
    plain ← or_error (json.marshal i) panic
    bk ← if not debug then must (encrypt g draw plain k.key_b) else ok plain
    assembly_bytes g k.key_b (suc draw) (split_loop (length bk) (buffer_size - get_header_size) bk)

  unfoldable pub decode : Bytes → Result Msg
  unfolding or_error
  decode b = do
    fail_if (length b == 0) empty_data
    plain ← if not debug then decrypt g b k.key_b else ok b
    or_error (json.unmarshal plain) (err bad_json)

  unfoldable pub set_msg : ℕ → String → String → ℤ → Data json.J → Result (List Bytes)
  set_msg draw header id code d =
      encode draw (record { header = header; code = code; payload = tag json d; id = id })

  unfoldable pub finish_msg : Bytes → Result Msg
  finish_msg b = do msg ← decode b; d ← untag json msg.payload; ok (record msg { payload = d })

  unfoldable pub read_c_msg : (ℕ → Bool) → Bytes → Reading Msg
  read_c_msg skip s =
      let r = read_packets g k (suc (length s)) skip 0 s [] [] in
      record { result = r.result >>= finish_msg; rest = r.rest; speed = r.speed }
