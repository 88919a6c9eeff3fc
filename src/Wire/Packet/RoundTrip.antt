-- ===== src/Wire/Packet/RoundTrip.antt =====
-- A packet that assemblyBytes wrote, and ReadCPacket at its beginning.
use go_cfc.Base.{
  ℕ, ◌+◌, ◌-◌, ◌%◌, ◌^◌, ◌≤◌, ◌<◌, ◌≡◌, refl, sym, ap, ◌∙◌, false, not, ◌++◌, arith, ◌==◌, Bytes,
  length, take, drop, length-append, if◌then◌else◌,
}
use mathlib.Core.List.{append_assoc}
use go_cfc.Base.Lists.{take-append, take-length, drop-append, take-append_add, drop-append_add}
use go_cfc.Wire.Errors.{ok}
use go_cfc.Wire.Numbers.{le_bytes, le_value, length-le_bytes, le_value-le_bytes}
use go_cfc.Wire.Cipher.{Gcm, GcmLaws, encrypt, tool_hash, same_bytes}
use go_cfc.Wire.Cipher.RoundTrip.{check_hash-tool_hash, decrypt-encrypt}
use go_cfc.Wire.Packet.{
  Packet, wait, last, version, peek, assembly_packet, open_packet, read_c_packet,
}

-- What a packet announces: whether another one follows it.
abbrev pub numbered : ℕ → Bytes → Packet
numbered num b = if not (num == 0) then wait b else last b

pub peek_ok : (n : ℕ) (s : Bytes) → n ≤ length s → n ≤ 4096 → peek n s ≡ ok (take n s)
unfolding peek
peek_ok n s h k = ground arith

-- The four parts of a packet, with the numbers as they were written.
abbrev pub layout : ℕ → Bytes → ℕ → Bytes → Bytes
layout lens h2 num b1 = version ++ (le_bytes 8 lens ++ (h2 ++ (le_bytes 8 num ++ b1)))

pub length-layout :
    (lens num : ℕ) (h2 b1 : Bytes)
    → length h2 ≡ 60
    → length (layout lens h2 num b1) ≡ length b1 + 92
length-layout lens num h2 b1 h = omega (
  arith,
  length-append (le_bytes 8 lens) (h2 ++ (le_bytes 8 num ++ b1)),
  length-append h2 (le_bytes 8 num ++ b1),
  length-append (le_bytes 8 num) b1,
  length-le_bytes 8 lens,
  length-le_bytes 8 num,
)

module _ (lens num : ℕ) (h2 b1 : Bytes) (size : length h2 ≡ 60) where
  drop_84 : drop 84 (layout lens h2 num b1) ≡ le_bytes 8 num ++ b1
  drop_84 =
      drop-append_add 84 68 version _ refl
      ∙ drop-append_add 68 60 (le_bytes 8 lens) _ (omega (arith, length-le_bytes 8 lens))
      ∙ drop-append 60 h2 _ (sym size)

  take-drop_24 : take 60 (drop 24 (layout lens h2 num b1)) ≡ h2
  take-drop_24 =
      ap (take 60) (
        drop-append_add 24 8 version _ refl
        ∙ drop-append 8 (le_bytes 8 lens) _ (sym (length-le_bytes 8 lens)))
      ∙ take-append 60 h2 _ (sym size)

  drop_92 : drop 92 (layout lens h2 num b1) ≡ b1
  drop_92 =
      drop-append_add 92 76 version _ refl
      ∙ drop-append_add 76 68 (le_bytes 8 lens) _ (omega (arith, length-le_bytes 8 lens))
      ∙ drop-append_add 68 8 h2 _ (omega arith)
      ∙ drop-append 8 (le_bytes 8 num) _ (sym (length-le_bytes 8 num))

  take_16 : (rest : Bytes) → take 16 (layout lens h2 num b1 ++ rest) ≡ version
  take_16 rest = take-append 16 version _ refl

  take_24 : (rest : Bytes) → take 24 (layout lens h2 num b1 ++ rest) ≡ version ++ le_bytes 8 lens
  take_24 rest =
      take-append_add 24 8 version _ refl
      ∙ ap (◌++◌ version) (
          ap (take 8) (append_assoc (le_bytes 8 lens) _ rest)
          ∙ take-append 8 (le_bytes 8 lens) _ (sym (length-le_bytes 8 lens)))

  announced :
      (rest : Bytes)
      → lens < 2 ^ 64
      → le_value (take 8 (drop 16 (take 24 (layout lens h2 num b1 ++ rest)))) ≡ lens
  announced rest small =
      ap (λ (b : Bytes). le_value (take 8 (drop 16 b))) (take_24 rest)
      ∙ ap (λ (b : Bytes). le_value (take 8 b)) (drop-append 16 version _ refl)
      ∙ ap le_value (take-length 8 (le_bytes 8 lens) (sym (length-le_bytes 8 lens)))
      ∙ le_value-le_bytes 8 lens small

-- The checks of ReadCPacket pass where a whole packet of legal length stands first.
pub read_c_packet_accepts :
    (g : Gcm) (key : Bytes) (lens : ℕ) (s : Bytes)
    → 92 < lens
    → lens ≤ 4096
    → lens ≤ length s
    → take 16 s ≡ version
    → le_value (take 8 (drop 16 (take 24 s))) ≡ lens
    → read_c_packet g key false s ≡ open_packet g key (take lens s)
unfolding read_c_packet same_bytes
read_c_packet_accepts g key lens s more fits whole e16 e24 =
    rw
      (
        peek_ok 1 s (omega arith) (omega arith),
        peek_ok 16 s (omega arith) (omega arith),
        e16,
        peek_ok 24 s (omega arith) (omega arith),
        e24,
      )
      (ground (arith, peek_ok lens s))

module _ {g : Gcm} (laws : GcmLaws g) (key : Bytes) where
  -- `open_packet` gives back the data of a well-made packet.
  pub open_packet-layout :
      (draw lens num : ℕ) (h2 b1 : Bytes)
      → num < 2 ^ 64
      → length h2 ≡ 60
      → encrypt g draw (tool_hash g (le_bytes 8 num ++ b1)) key ≡ ok h2
      → open_packet g key (layout lens h2 num b1) ≡ ok (numbered num b1)
  unfolding open_packet
  open_packet-layout draw lens num h2 b1 small size e = rw (
    drop_84 lens num h2 b1 size,
    take-drop_24 lens num h2 b1 size,
    drop_92 lens num h2 b1 size,
    decrypt-encrypt laws draw _ key h2 e,
    check_hash-tool_hash g (le_bytes 8 num ++ b1),
    take-append 8 (le_bytes 8 num) b1 (sym (length-le_bytes 8 num)),
    le_value-le_bytes 8 num small,
  )

  -- ReadCPacket at a well-made packet, whatever follows it.
  pub read_c_packet-layout :
      (draw num : ℕ) (h2 b1 rest : Bytes)
      → num < 2 ^ 64
      → length h2 ≡ 60
      → 0 < length b1
      → length b1 ≤ 4004
      → encrypt g draw (tool_hash g (le_bytes 8 num ++ b1)) key ≡ ok h2
      → read_c_packet g key false (layout (length b1 + 92) h2 num b1 ++ rest) ≡ ok (numbered num b1)
  read_c_packet-layout draw num h2 b1 rest small size pos fits e =
      let lens = length b1 + 92 in
      let pack = layout lens h2 num b1 in
      let all : lens ≡ length pack = sym (length-layout lens num h2 b1 size) in
      read_c_packet_accepts g key lens (pack ++ rest) (omega arith) (omega arith)
        (omega (arith, length-append pack rest, all)) (take_16 lens num h2 b1 size rest)
        (announced lens num h2 b1 size rest (omega arith))
      ∙ ap (open_packet g key) (take-append lens pack rest all)
      ∙ open_packet-layout draw lens num h2 b1 small size e

  -- What assemblyBytes writes for one chunk.
  pub assembly_packet_inv :
      (draw l i : ℕ) (b1 pkg : Bytes)
      → length b1 ≤ 4004
      → assembly_packet g key draw l i b1 ≡ ok pkg
      → let num = (l - i - 1) % 2 ^ 64 in
        (h2 : Bytes) × (encrypt g draw (tool_hash g (le_bytes 8 num ++ b1)) key ≡ ok h2)
        × (length h2 ≡ 60)
        × (pkg ≡ layout (length b1 + 92) h2 num b1)
  unfolding assembly_packet
  assembly_packet_inv draw l i b1 pkg fits e = ground arith
