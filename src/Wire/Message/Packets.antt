-- ===== src/Wire/Message/Packets.antt =====
-- The cutting loop of Encode, and the loop of ReadCMsg at the packets that assemblyBytes made.
use go_cfc.Base.{
  ℕ, zero, suc, ◌+◌, ◌-◌, ◌%◌, ◌^◌, ◌≤◌, ◌<◌, ◌≡◌, ◌≢◌, refl, ap, ◌∙◌, Bool, false, List, [], ◌∷◌,
  ◌++◌, arith, Bytes, length, take, drop, length-append, concat, map, All,
}
use mathlib.Core.List.{append_assoc, append-nil}
use native.Mathlib.Nat.{mod-eq_of_lt}
use go_cfc.Base.Lists.{drop-append, length-take, length-drop, take-append-drop}
use go_cfc.Wire.Errors.{Result, ok}
use go_cfc.Wire.Cipher.{Gcm, GcmLaws}
use go_cfc.Wire.Packet.{
  Packet, wait, last, split_loop, assembly_packet, assembly_loop, read_c_packet,
}
use go_cfc.Wire.Packet.RoundTrip.{
  numbered, length-layout, read_c_packet-layout, assembly_packet_inv,
}
use go_cfc.Wire.Message.{Key, read_packets}

-- A chunk that fits one packet.
abbrev pub IsChunk : Bytes → Type 0
IsChunk b = (0 < length b) × (length b ≤ 4004)

-- The cutting loop loses nothing, and every piece fits a packet.
pub concat-split_loop :
    (fuel size : ℕ) (bk : Bytes)
    → 0 < size
    → length bk ≤ fuel
    → concat (split_loop fuel size bk) ≡ bk
unfolding split_loop
concat-split_loop fuel size [] pos h = empty fuel
  where
    empty : (f : ℕ) → concat (split_loop f size []) ≡ []
    empty zero = refl
    empty (suc f) = refl
concat-split_loop zero size (x ∷ bk) pos h = absurd (omega arith)
concat-split_loop (suc fuel) size (x ∷ bk) pos h =
    ap (◌++◌ (take size (x ∷ bk))) (
      concat-split_loop fuel size (drop size (x ∷ bk)) pos
        (omega (arith, length-drop size (x ∷ bk))))
    ∙ take-append-drop size (x ∷ bk)

pub split_loop-IsChunk :
    (fuel size : ℕ) (bk : Bytes) → 0 < size → size ≤ 4004 → All IsChunk (split_loop fuel size bk)
unfolding split_loop
split_loop-IsChunk zero size bk pos fits = tt
split_loop-IsChunk (suc fuel) size [] pos fits = tt
split_loop-IsChunk (suc fuel) size (x ∷ bk) pos fits = (
  (omega (arith, length-take size (x ∷ bk)), omega (arith, length-take size (x ∷ bk))),
  split_loop-IsChunk fuel size (drop size (x ∷ bk)) pos fits,
)

pub split_loop-ne-nil :
    (size : ℕ) (bk : Bytes) → 0 < length bk → split_loop (length bk) size bk ≢ []
unfolding split_loop
split_loop-ne-nil size [] h e = absurd (omega arith)
split_loop-ne-nil size (x ∷ bk) h e = cc

numbered-suc :
    (num m : ℕ) (b : Bytes)
    → num ≡ suc m
    → ◌≡◌ {A = Result Packet} (ok (numbered num b)) (ok (wait b))
numbered-suc num m b e = ground arith

module _ (g : Gcm) (k : Key) (skip : ℕ → Bool) where
  -- One round of the loop at a packet that another one follows, and at the last packet.
  read_packets_wait :
      (fuel n : ℕ) (b b0 pack more : Bytes) (speed : List ℕ)
      → read_c_packet g k.key_b (skip n) (pack ++ more) ≡ ok (wait b0)
      → length pack ≡ length b0 + 92
      → read_packets g k (suc fuel) skip n (pack ++ more) b speed
        ≡ read_packets g k fuel skip (suc n) more (b ++ b0) (speed ++ length pack ∷ [])
  unfolding read_packets
  read_packets_wait fuel n b b0 pack more speed e size =
      ground (arith, drop-append (92 + length b0) pack more, length-append pack more)

  read_packets_last :
      (fuel n : ℕ) (b b0 pack more : Bytes) (speed : List ℕ)
      → read_c_packet g k.key_b (skip n) (pack ++ more) ≡ ok (last b0)
      → length pack ≡ length b0 + 92
      → read_packets g k (suc fuel) skip n (pack ++ more) b speed
        ≡ record { result = ok (b ++ b0); rest = more; speed = speed ++ length pack ∷ [] }
  unfolding read_packets
  read_packets_last fuel n b b0 pack more speed e size =
      ground (arith, drop-append (92 + length b0) pack more, length-append pack more)

module _ (g : Gcm) (key : Bytes) where
  assembly_loop_inv :
      (draw l i : ℕ) (b1 : Bytes) (bs ps : List Bytes)
      → assembly_loop g key draw l i (b1 ∷ bs) ≡ ok ps
      → (pkg : Bytes) × (bo : List Bytes) × (assembly_packet g key draw l i b1 ≡ ok pkg)
        × (assembly_loop g key (suc draw) l (suc i) bs ≡ ok bo)
        × (ps ≡ pkg ∷ bo)
  unfolding assembly_loop
  assembly_loop_inv draw l i b1 bs ps e = ground arith

  assembly_loop_nil :
      (draw l i : ℕ) (ps : List Bytes) → assembly_loop g key draw l i [] ≡ ok ps → ps ≡ []
  unfolding assembly_loop
  assembly_loop_nil draw l i ps e = ground arith

module _ {g : Gcm} (laws : GcmLaws g) (k : Key) (skip : ℕ → Bool)
    (off : (n : ℕ) → skip n ≡ false) where
  -- ReadCPacket at the packet that one round of assemblyBytes made.
  read_c_packet-assembly_packet :
      (draw l i n : ℕ) (b1 pkg more : Bytes)
      → IsChunk b1
      → i < l
      → l < 2 ^ 64
      → assembly_packet g k.key_b draw l i b1 ≡ ok pkg
      → (read_c_packet g k.key_b (skip n) (pkg ++ more) ≡ ok (numbered (l - i - 1) b1))
        × (length pkg ≡ length b1 + 92)
  read_c_packet-assembly_packet draw l i n b1 pkg more (pos, fits) hi hl e =
      let (h2, sealed, size, shape) = assembly_packet_inv laws k.key_b draw l i b1 pkg fits e in
      let small : (l - i - 1) % 2 ^ 64 ≡ l - i - 1 = mod-eq_of_lt (omega arith) in
      (
        rw (off n, shape)
            (read_c_packet-layout laws k.key_b draw ((l - i - 1) % 2 ^ 64) h2 b1 more (omega arith)
                size pos fits sealed
              ∙ ap (λ (num : ℕ). ok (numbered num b1)) small),
        rw shape (length-layout (length b1 + 92) ((l - i - 1) % 2 ^ 64) h2 b1 size),
      )

  pub read_packets-assembly_loop :
      (bs ps : List Bytes) (fuel draw l i n : ℕ) (b more : Bytes) (speed : List ℕ)
      → bs ≢ []
      → All IsChunk bs
      → i + length bs ≡ l
      → l < 2 ^ 64
      → length bs ≤ fuel
      → assembly_loop g k.key_b draw l i bs ≡ ok ps
      → read_packets g k fuel skip n (concat ps ++ more) b speed
        ≡ record { result = ok (b ++ concat bs); rest = more; speed = speed ++ map length ps }
  read_packets-assembly_loop [] ps fuel draw l i n b more speed some_chunk _ _ _ _ _ =
      absurd (some_chunk refl)
  read_packets-assembly_loop (b1 ∷ bs) ps zero draw l i n b more speed _ _ _ _ h _ =
      absurd (omega arith)
  read_packets-assembly_loop (b1 ∷ []) ps (suc fuel) draw l i n b more speed _ (good, _) here hl h
        e =
      let (pkg, bo, made, rest, shape) = assembly_loop_inv g k.key_b draw l i b1 [] ps e in
      let (r, size) =
        read_c_packet-assembly_packet draw l i n b1 pkg more good (omega arith) hl made in
      let done : l - i - 1 ≡ 0 = omega arith in
      rw
        (
          shape,
          assembly_loop_nil g k.key_b (suc draw) l (suc i) bo rest,
          append-nil pkg,
          append-nil b1,
        )
        (read_packets_last g k skip fuel n b b1 pkg more speed
          (r ∙ ap (λ (num : ℕ). ok (numbered num b1)) done) size)
  read_packets-assembly_loop (b1 ∷ b2 ∷ bs) ps (suc fuel) draw l i n b more speed _ (good, goods)
        here hl h e =
      let (pkg, bo, made, rest, shape) = assembly_loop_inv g k.key_b draw l i b1 (b2 ∷ bs) ps e in
      let tail = concat bo ++ more in
      let (r, size) =
        read_c_packet-assembly_packet draw l i n b1 pkg tail good (omega arith) hl made in
      let todo : l - i - 1 ≡ suc (length bs) = omega arith in
      rw (shape, append_assoc pkg (concat bo) more)
        (read_packets_wait g k skip fuel n b b1 pkg tail speed
            (r ∙ numbered-suc (l - i - 1) (length bs) b1 todo) size
          ∙ read_packets-assembly_loop (b2 ∷ bs) bo fuel (suc draw) l (suc i) (suc n) (b ++ b1) more
              (speed ++ length pkg ∷ []) (λ q. cc) goods (omega arith) hl (omega arith) rest
          ∙ rw (
            append_assoc b b1 (concat (b2 ∷ bs)),
            append_assoc speed (length pkg ∷ []) (map length bo),
          ))

  pub length-assembly_loop :
      (bs ps : List Bytes) (draw l i : ℕ)
      → All IsChunk bs
      → assembly_loop g k.key_b draw l i bs ≡ ok ps
      → length bs ≤ length (concat ps)
  length-assembly_loop [] ps draw l i good e = omega arith
  length-assembly_loop (b1 ∷ bs) ps draw l i (good, goods) e =
      let (pkg, bo, made, rest, shape) = assembly_loop_inv g k.key_b draw l i b1 bs ps e in
      let (h2, _, size, made_as) = assembly_packet_inv laws k.key_b draw l i b1 pkg good.1 made in
      rw shape (
        omega (
          arith,
          length-append pkg (concat bo),
          ap length made_as,
          length-layout (length b1 + 92) ((l - i - 1) % 2 ^ 64) h2 b1 size,
          length-assembly_loop bs bo (suc draw) l (suc i) goods rest,
        ))
