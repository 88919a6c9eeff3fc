-- ===== src/Wire/Runs.antt =====
-- Concrete runs of the protocol over the stand-ins of Toys, and the theorems at them.
use go_cfc.Base.{
  ℕ, ◌≤◌, ◌<◌, ◌≡◌, ◌≢◌, refl, false, List, [], ◌∷◌, ◌++◌, arith, Bytes, length, take, drop, All,
  concat, map,
}
use go_cfc.Base.Int.{pos}
use go_cfc.Base.Lists.{sum}
use go_cfc.Wire.Errors.{ok, stuck}
use go_cfc.Wire.Numbers.{le_bytes, le_value}
use go_cfc.Wire.Cipher.{encrypt, decrypt, tool_hash, same_bytes, check_hash}
use go_cfc.Wire.Packet.{
  last, peek, open_packet, read_c_packet, split_loop, assembly_packet, assembly_loop,
  assembly_bytes, version,
}
use go_cfc.Wire.Packet.Acceptance.{read_c_packet_inv}
use go_cfc.Wire.Packet.RoundTrip.{numbered}
use go_cfc.Wire.Message.{bytes, tag, encode, set_msg, read_c_msg, must_bytes_to_base64}
use go_cfc.Wire.Message.RoundTrip.{read_c_msg-set_msg}
use go_cfc.Wire.Message.Progress.{read_c_msg_total}
use go_cfc.Wire.Message.Sending.{IsPacket, set_msg_succeeds}
use go_cfc.Wire.Toys.{toy, toy-laws, toy_json, toy_json-laws, shared_key, toy-Ready, packets_of}

abbrev sent : List Bytes
unfolding set_msg encode tag must_bytes_to_base64 encrypt tool_hash split_loop assembly_bytes
    assembly_loop assembly_packet le_bytes take drop
sent =
    packets_of
      (set_msg toy (toy_json "sOpenQ" "1") shared_key 0 "sOpenQ" "1" (pos 200) (bytes (1 ∷ 2 ∷ [])))

sent_lem :
    set_msg toy (toy_json "sOpenQ" "1") shared_key 0 "sOpenQ" "1" (pos 200) (bytes (1 ∷ 2 ∷ []))
    ≡ ok sent
unfolding set_msg encode tag must_bytes_to_base64 encrypt tool_hash split_loop assembly_bytes
    assembly_loop assembly_packet le_bytes take drop
sent_lem = refl

read_c_msg-set_msg_example :
    read_c_msg toy (toy_json "sOpenQ" "1") shared_key (λ n. false) (concat sent ++ (5 ∷ []))
    ≡ record {
      result =
          ok (record { header = "sOpenQ"; code = pos 200; payload = bytes (1 ∷ 2 ∷ []); id = "1" });
      rest = 5 ∷ [];
      speed = map length sent;
    }
unfolding sent
read_c_msg-set_msg_example =
    read_c_msg-set_msg toy-laws (toy_json-laws "sOpenQ" "1") shared_key (λ n. false) (λ n. refl) 0
      "sOpenQ" "1" (pos 200) (bytes (1 ∷ 2 ∷ [])) sent (5 ∷ []) tt sent_lem (omega arith)

read_c_msg_total_example :
    let r = read_c_msg toy (toy_json "sOpenQ" "1") shared_key (λ n. false) (1 ∷ 2 ∷ []) in
    (r.result ≢ stuck) × (r.rest ≡ drop (sum r.speed) (1 ∷ 2 ∷ [])) × (sum r.speed ≤ 2)
read_c_msg_total_example =
    read_c_msg_total toy (toy_json "sOpenQ" "1") shared_key (λ n. false) (1 ∷ 2 ∷ [])

set_msg_succeeds_example :
    (pkts : List Bytes) × (set_msg toy
        (toy_json "sOpenQ" "1")
        shared_key
        0
        "sOpenQ"
        "1"
        (pos 200)
        (bytes (1 ∷ 2 ∷ []))
      ≡ ok pkts)
    × All IsPacket pkts
set_msg_succeeds_example =
    set_msg_succeeds toy-laws (toy_json "sOpenQ" "1") shared_key 0 "sOpenQ" "1" (pos 200)
      (bytes (1 ∷ 2 ∷ [])) (1 ∷ 2 ∷ []) toy-Ready (unfold tag must_bytes_to_base64 in refl)

accepted :
    read_c_packet toy shared_key.key_b false (concat sent) ≡ ok (last (drop 92 (concat sent)))
unfolding read_c_packet open_packet peek check_hash decrypt tool_hash same_bytes le_value take drop
    sent
accepted = refl

read_c_packet_inv_example :
    let s = concat sent in
    (lens : ℕ) × (false ≡ false)
    × (take 16 s ≡ version)
    × (le_value (take 8 (drop 16 (take 24 s))) ≡ lens)
    × (92 < lens)
    × (lens ≤ 4096)
    × (lens ≤ length s)
    × (decrypt toy (take 60 (drop 24 (take lens s))) shared_key.key_b
        ≡ ok (tool_hash toy (drop 84 (take lens s))))
    × (last (drop 92 s)
        ≡ numbered (le_value (take 8 (drop 84 (take lens s)))) (drop 92 (take lens s)))
read_c_packet_inv_example =
    read_c_packet_inv toy shared_key.key_b false (concat sent) (last (drop 92 (concat sent)))
      accepted
