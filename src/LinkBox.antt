-- ===== src/LinkBox.antt =====
-- tool/linkBox.go: bytes are copied between a link and the other side, as they are or through a
-- function. A reader is the list of its unread bytes. What a Read gives is `some n` for at most n
-- bytes and `none` for an error; `accepts n` says whether the Write number n succeeds.
pub mod Copying
use go_cfc.Base.{
  ℕ, zero, suc, Bool, true, false, Option, none, some, List, [], ◌∷◌, ◌++◌, Bytes, take, drop,
  if◌then◌else◌,
}
use Prim.Native.Nat.{min}
use go_cfc.Wire.Errors.{Result, ok, err, panic, stuck}

-- LinkBoxRWFn: what to write, and what it leaves to read.
abbrev pub LinkBoxRwFn : Type 0
LinkBoxRwFn = Bytes → Result (List Bytes) × Bytes

pub record LinkBox : Type 0 where
  pub readr_size : ℕ
  pub link_reader : Bytes
  pub link_written : List Bytes
  pub link_read_fn : Option LinkBoxRwFn
  pub link_write_fn : Option LinkBoxRwFn

unfoldable pub new_link_box : ℕ → Bytes → Option LinkBoxRwFn → Option LinkBoxRwFn → LinkBox
new_link_box size reader read_fn write_fn = record {
  readr_size = size;
  link_reader = reader;
  link_written = [];
  link_read_fn = read_fn;
  link_write_fn = write_fn;
}

-- A call that returns nil, one that returns an error, and one that panics.
pub data Copied : Type 0 where
  done failed crashed : Copied

-- The loop of `Write`s over a list: whether it got to its end, and what was written.
unfoldable pub write_list : (ℕ → Bool) → ℕ → List Bytes → List Bytes → Copied × List Bytes
write_list accepts n [] out = (done, out)
write_list accepts n (one ∷ bs) out = elim (accepts n) [
  | true ↦ write_list accepts (suc n) bs (out ++ one ∷ [])
  | false ↦ (failed, out)
]

-- reader.Read(buf) into a buffer of `size` bytes.
unfoldable pub read_some : Option ℕ → ℕ → Bytes → Option (Bytes × Bytes)
read_some none size s = none
read_some (some n) size s = some (take (min n size) s, drop (min n size) s)

-- ReadLinkBoxToWriter, where `out` is what the writer has got.
unfoldable pub read_link_box_to_writer :
    Option ℕ → (ℕ → Bool) → LinkBox → List Bytes → Copied × LinkBox × List Bytes
unfolding write_list read_some
read_link_box_to_writer got accepts lb out = elim lb.link_write_fn [
  | some write_fn ↦
      let (r, rest) = write_fn lb.link_reader in
      let lb' = record lb { link_reader = rest } in
      elim r [
        | ok bs ↦ let (c, out') = write_list accepts 0 bs out in (c, lb', out')
        | err _ ↦ (failed, lb', out)
        | panic ↦ (crashed, lb', out)
        | stuck ↦ (crashed, lb', out)
      ]
  | none ↦ elim (read_some got lb.readr_size lb.link_reader) [
    | none ↦ (failed, lb, out)
    | some (b, rest) ↦
        let (c, out') = write_list accepts 0 (b ∷ []) out in
        (c, record lb { link_reader = rest }, out')
  ]
]

-- writes and write: to the link.
unfoldable pub writes : (ℕ → Bool) → List Bytes → LinkBox → Copied × LinkBox
unfolding write_list
writes accepts bs lb =
    let (c, out) = write_list accepts 0 bs lb.link_written in (c, record lb { link_written = out })

-- WriteLinkBoxFromReader, where `s` is the unread rest of the reader, of a buffer of `size` bytes.
unfoldable pub write_link_box_from_reader :
    Option ℕ → (ℕ → Bool) → ℕ → Bytes → LinkBox → Copied × LinkBox × Bytes
unfolding writes read_some
write_link_box_from_reader got accepts size s lb = elim lb.link_read_fn [
  | some read_fn ↦
      let (r, rest) = read_fn s in
      elim r [
        | ok bs ↦ let (c, lb') = writes accepts bs lb in (c, lb', rest)
        | err _ ↦ (failed, lb, rest)
        | panic ↦ (crashed, lb, rest)
        | stuck ↦ (crashed, lb, rest)
      ]
  | none ↦ elim (read_some got size s) [
    | none ↦ (failed, lb, s)
    | some (b, rest) ↦ let (c, lb') = writes accepts (b ∷ []) lb in (c, lb', rest)
  ]
]
