-- ===== src/Wire/Packet.antt =====
-- tool/cMsgConst.go, Key.assemblyBytes and the cutting loop of Key.Encode (tool/cMsgCrypto.go), and
-- Key.ReadCPacket (tool/cMsgRead.go).
-- A bufio.Reader of BufferSize bytes is the list of the bytes that are still to come before the
-- stream ends; `atomic.Bool` is given by the value that is loaded.
pub mod Acceptance
pub mod RoundTrip
use go_cfc.Base.{
  ℕ, zero, suc, ◌+◌, ◌-◌, ◌%◌, ◌^◌, Bool, not, List, [], ◌∷◌, ◌++◌, ltb, ◌==◌, if◌then◌else◌, codes,
  Bytes, length, take, drop,
}
use go_cfc.Base.Int.{int64_of, at_most, to_size}
use go_cfc.Wire.Errors.{
  Result, ok, err, panic, ◌>>=◌, ◌>>◌, fail_if, must, eof, buffer_full, read_c_skip_to_fast_conn,
  read_c_protocol_is_not_go_cfc, read_c_msg_lens_too_short, read_c_msg_lens_too_long,
  read_c_msg_hash_check_failed,
}
use go_cfc.Wire.Numbers.{le_bytes, le_value}
use go_cfc.Wire.Cipher.{Gcm, encrypt, decrypt, tool_hash, check_hash, same_bytes}

abbrev pub version : Bytes
version = codes "go-CFC-v01.02.00"

abbrev pub buffer_size : ℕ
buffer_size = 4096

abbrev pub version_size : ℕ
version_size = 16

abbrev pub len_size : ℕ
len_size = 8

abbrev pub hash_size : ℕ
hash_size = 60

abbrev pub num_size : ℕ
num_size = 8

abbrev pub get_header_size : ℕ
get_header_size = version_size + len_size + hash_size + num_size

-- reader.Peek(n), and reader.Discard(n) where the bytes have been peeked at.
unfoldable pub peek : ℕ → Bytes → Result Bytes
peek n s =
    if ltb buffer_size n
    then err buffer_full
    else if ltb (length s) n
    then err eof
    else ok (take n s)

-- `for j := 0; j < lens; j += size { append(bs, bk[j:next]) }`. The list is `bk[j:]`; each round
-- takes at least one byte, so `length bk` rounds are enough.
unfoldable pub split_loop : ℕ → ℕ → Bytes → List Bytes
split_loop zero size bk = []
split_loop (suc fuel) size [] = []
split_loop (suc fuel) size (b ∷ bk) = take size (b ∷ bk) ∷ split_loop fuel size (drop size (b ∷ bk))

module _ (g : Gcm) (key : Bytes) where
  -- One round of the loop of assemblyBytes: packet `i` of `l`, whose hash takes the draw `draw`.
  unfoldable pub assembly_packet : ℕ → ℕ → ℕ → Bytes → Result Bytes
  assembly_packet draw l i b1 =
      let lens = length b1 + get_header_size in
      let b2 = le_bytes num_size ((l - i - 1) % 2 ^ 64) ++ b1 in
      do
        h2 ← must (encrypt g draw (tool_hash g b2) key)
        if not (length h2 == hash_size)
            then panic
            else ok (version ++ (le_bytes len_size (lens % 2 ^ 64) ++ (h2 ++ b2)))

  unfoldable pub assembly_loop : ℕ → ℕ → ℕ → List Bytes → Result (List Bytes)
  assembly_loop draw l i [] = ok []
  assembly_loop draw l i (b1 ∷ bs) = do
    pkg ← assembly_packet draw l i b1
    bo ← assembly_loop (suc draw) l (suc i) bs
    ok (pkg ∷ bo)

  unfoldable pub assembly_bytes : ℕ → List Bytes → Result (List Bytes)
  assembly_bytes draw bs = assembly_loop draw (length bs) 0 bs

-- What ReadCPacket returns beside its other errors: `(b, errWaitPack)` or `(b, nil)`.
pub data Packet : Type 0 where
  wait last : Bytes → Packet

module _ (g : Gcm) (key : Bytes) where
  -- The checks from `reader.Peek(int(lens))` on.
  unfoldable pub open_packet : Bytes → Result Packet
  open_packet pack =
      let body = drop (version_size + len_size + hash_size) pack in
      do
        h ← decrypt g (take hash_size (drop (version_size + len_size) pack)) key
        fail_if (not (check_hash g h body)) read_c_msg_hash_check_failed
        let payload = drop get_header_size pack
        ok (if not (le_value (take num_size body) == 0) then wait payload else last payload)

  -- `skip` is the value of `skip != nil && skip.Load()`.
  unfoldable pub read_c_packet : Bool → Bytes → Result Packet
  read_c_packet skip s = do
    _ ← peek 1 s
    fail_if skip read_c_skip_to_fast_conn
    ver ← peek version_size s
    fail_if (not (same_bytes ver version)) read_c_protocol_is_not_go_cfc
    lenb ← peek (version_size + len_size) s
    let lens = int64_of (le_value (take len_size (drop version_size lenb)))
    fail_if (at_most lens get_header_size) read_c_msg_lens_too_short
    fail_if (not (at_most lens buffer_size)) read_c_msg_lens_too_long
    pack ← peek (to_size lens) s
    open_packet pack
