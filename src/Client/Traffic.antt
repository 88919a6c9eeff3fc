-- ===== src/Client/Traffic.antt =====
-- Concrete runs of links and of messages between sub boxes, and their theorems at them.
use go_cfc.Base.{
  ℕ, ◌≡◌, ◌≢◌, refl, true, false, Bool, Option, none, some, List, [], ◌∷◌, ◌++◌, Bytes, arith,
  concat, str_eq, take, drop,
}
use go_cfc.Base.Int.{pos}
use go_cfc.Wire.Errors.{ok, err, eof, Result}
use go_cfc.Speed.{set}
use Prim.Native.Nat.{suc}
use go_cfc.Wire.Message.{
  check_conn_msg_header_and_code, new_key, ConnMsg, Data, bytes, value, set_msg, encode, tag,
  must_bytes_to_base64, read_c_msg,
}
use go_cfc.Wire.Toys.{toy, toy-laws, Toy, toy_json, toy_json-laws, shared_key, packets_of}
use go_cfc.Wire.Cipher.{encrypt, tool_hash}
use go_cfc.Wire.Packet.{split_loop, assembly_bytes, assembly_loop, assembly_packet}
use go_cfc.Wire.Numbers.{le_bytes}
use go_cfc.Loger.{init, is_logged}
use go_cfc.LinkBox.{LinkBox, read_some, write_list, new_link_box, done, read_link_box_to_writer}
use go_cfc.Server.Tunnel.{vpn_read_fn, vpn_write_fn}
use go_cfc.Client.State.{SubBox}
use go_cfc.Client.Errors.{wait_answer, check, Try, fine, box_is_closed, link_client_is_closed}
use go_cfc.Client.Boxes.{write_sub}
use go_cfc.Client.Boxes.{write_queue_bytes, write_sub_c_msg}
use go_cfc.Client.Boxes.Messages.{read_c_msg_cb, msg, Writes, writes, all_written}
use go_cfc.Client.Boxes.Talking.{read_c_msg_cb-write_sub_c_msg, sub_boxes_talk}
use go_cfc.LinkBox.Copying.{Rounds, sends, stops}
use go_cfc.LinkBox.{write_link_box_from_reader}
use go_cfc.Client.Link.{
  LinkConnReq, LinkClient, tcp_conn, close, wait_link, link_local_addr, link_remote_addr,
  copy_local_addr, copy_remote_addr,
}
use go_cfc.Client.Link.Joining.{
  link_other_conn, new_link, linked, proxy_conn, link_handshake_check, on_vpn_a1, set_log_error,
}
use go_cfc.Client.Link.Sending.{write_packets, write_from_copy_conn, on_copy_msg}
use go_cfc.Client.Link.Answers.{link_answers}
use go_cfc.Client.Link.Carrying.{rounds, Sends, sends, sent_all, link_carries_pieces}
use go_cfc.Client.Link.Ending.{link_client_ends}
use go_cfc.Client.Toys.{replies, message, world, blank}

-- A link over the proxy server.
abbrev link_req : LinkConnReq
link_req = record {
  copy_kind = tcp_conn;
  copy_local_addr = "127.0.0.1:1";
  copy_remote_addr = "127.0.0.1:2";
  conn_type = "LinkConnTypeTCP";
  conn_addr = "9.9.9.9:80";
  proxy_addr = "7.7.7.7:7";
  proxy_key = shared_key.key;
}

abbrev try_of : LinkClient → Option (Try LinkClient) → LinkClient
try_of lc (some (fine l)) = l
try_of lc _ = lc

abbrev link : LinkClient
unfolding link_other_conn new_link linked proxy_conn link_handshake_check wait_answer on_vpn_a1
    check check_conn_msg_header_and_code init new_key set_log_error is_logged
link =
    try_of (new_link link_req) (link_other_conn replies world init (message "ConnVPNA1") link_req)

link_made : link_other_conn replies world init (message "ConnVPNA1") link_req ≡ some (fine link)
unfolding link_other_conn new_link linked proxy_conn link_handshake_check wait_answer on_vpn_a1
    check check_conn_msg_header_and_code init new_key set_log_error is_logged link
link_made = refl

link_client_ends_example :
    (str_eq "7.7.7.7:7" "" ≡ false
      → (lc1 : LinkClient) × ((lc2 : LinkClient) × (close (some box_is_closed) link
            ≡ some (none, lc1))
          × (lc1.link_closed ≡ true)
          × (lc1.copy_closed ≡ true)
          × (wait_link lc1 ≡ some (some box_is_closed, lc2))
          × (wait_link lc2 ≡ none)
          × (close none lc1 ≡ some (some link_client_is_closed, lc1))
          × (link_local_addr link ≢ none)))
    × (str_eq "7.7.7.7:7" "" ≡ true
        → (close (some box_is_closed) link ≡ none)
          × (link_local_addr link ≡ none)
          × (link_remote_addr link ≡ none)
          × (copy_local_addr link ≡ none)
          × (copy_remote_addr link ≡ none))
link_client_ends_example =
    link_client_ends replies world init (message "ConnVPNA1") link_req link (some box_is_closed)
      none link_made

-- The client writes one piece, and the server's link box takes it. The link is new.
abbrev to_bytes : Data Toy → Option Bytes
to_bytes (bytes b) = some b
to_bytes (value v) = none

abbrev packets : List Bytes
unfolding set_msg encode tag must_bytes_to_base64 encrypt tool_hash split_loop assembly_bytes
    assembly_loop assembly_packet le_bytes take drop
packets = packets_of (
    set_msg toy (toy_json "ConnVPNQ2" "") shared_key 0 "ConnVPNQ2" "" (pos 200)
      (bytes (1 ∷ 2 ∷ [])))

packets_lem :
    set_msg toy (toy_json "ConnVPNQ2" "") shared_key 0 "ConnVPNQ2" "" (pos 200) (bytes (1 ∷ 2 ∷ []))
    ≡ ok packets
unfolding set_msg encode tag must_bytes_to_base64 encrypt tool_hash split_loop assembly_bytes
    assembly_loop assembly_packet le_bytes take drop packets
packets_lem = refl

abbrev keyed : LinkClient
unfolding new_link
keyed = record (new_link link_req) { proxy_key = shared_key }

abbrev wrote : LinkClient
unfolding write_packets keyed packets
wrote = (write_packets (λ n. true) 5 packets keyed).1

Sends-it : Sends toy (toy_json "ConnVPNQ2" "") keyed ((1 ∷ 2 ∷ []) ∷ []) wrote
unfolding write_from_copy_conn write_packets wrote keyed packets set_msg encode tag
    must_bytes_to_base64 encrypt tool_hash split_loop assembly_bytes assembly_loop assembly_packet
    le_bytes take drop
Sends-it = sends (λ n. true) 5 0 (1 ∷ 2 ∷ []) [] keyed wrote wrote refl (sent_all wrote)

abbrev server_box : LinkBox
unfolding new_link_box
server_box =
    new_link_box 4096 (3 ∷ 4 ∷ 5 ∷ [])
      (some (vpn_read_fn toy (toy_json "ConnVPNQ2" "") shared_key to_bytes (λ n. false)))
      (some (vpn_write_fn toy (toy_json "ConnVPNA2" "") shared_key (some 2) 4096 0))

link_carries_pieces_example :
    rounds none 4096 1 (concat wrote.link_written) server_box
    ≡ (done, record server_box { link_written = [] ++ (1 ∷ 2 ∷ []) ∷ [] }, [])
unfolding wrote keyed server_box
link_carries_pieces_example =
    link_carries_pieces toy-laws (toy_json-laws "ConnVPNQ2" "") to_bytes (λ b. refl) (λ n. false)
      (λ n. refl) none 4096 keyed wrote ((1 ∷ 2 ∷ []) ∷ []) server_box Sends-it refl (omega arith)
      refl

-- The server's link box reads two bytes of the other side, and sends them.
abbrev reply : List Bytes
unfolding set_msg encode tag must_bytes_to_base64 encrypt tool_hash split_loop assembly_bytes
    assembly_loop assembly_packet le_bytes take drop
reply = packets_of (
    set_msg toy (toy_json "ConnVPNA2" "") shared_key 0 "ConnVPNA2" "" (pos 200)
      (bytes (3 ∷ 4 ∷ [])))

abbrev left_box : LinkBox
unfolding server_box
left_box = record server_box { link_reader = 5 ∷ [] }

replied : read_link_box_to_writer (some 2) (λ n. true) server_box [] ≡ (done, left_box, reply)
unfolding set_msg encode tag must_bytes_to_base64 encrypt tool_hash split_loop assembly_bytes
    assembly_loop assembly_packet le_bytes take drop reply left_box server_box
    read_link_box_to_writer vpn_write_fn read_some write_list
replied = refl

link_answers_example :
    let r =
      read_c_msg toy (toy_json "ConnVPNA2" "") shared_key (λ n. false) (concat reply ++ 9 ∷ []) in
    (m : ConnMsg (Data Toy)) × (r.result ≡ ok m)
    × (r.rest ≡ 9 ∷ [])
    × (on_copy_msg toy (toy_json "ConnVPNA2" "") to_bytes true m link
        ≡ some (record link { copy_written = [] ++ (3 ∷ 4 ∷ []) ∷ [] }))
    × (◌++◌ {A = ℕ} (3 ∷ 4 ∷ []) (5 ∷ []) ≡ 3 ∷ 4 ∷ 5 ∷ [])
unfolding reply server_box left_box link take drop
link_answers_example =
    link_answers toy-laws (toy_json-laws "ConnVPNA2" "") to_bytes (λ b. refl) (λ n. false)
      (λ n. refl) none 4096 shared_key 0 2 server_box left_box reply (9 ∷ []) link refl replied
      (omega arith)

-- A sub box writes one message; the callback counts the messages.
abbrev written_sub : SubBox
unfolding write_queue_bytes write_sub packets set
written_sub = (write_queue_bytes (λ n. true) 5 packets blank).1

messages :
    Writes toy
      (toy_json "ConnVPNQ2" "")
      blank
      (msg "ConnVPNQ2" "" (pos 200) (bytes (1 ∷ 2 ∷ [])) ∷ [])
      written_sub
unfolding write_sub_c_msg write_queue_bytes write_sub set written_sub packets set_msg encode tag
    must_bytes_to_base64 encrypt tool_hash split_loop assembly_bytes assembly_loop assembly_packet
    le_bytes take drop
messages =
    writes (λ n. true) 5 0 "ConnVPNQ2" "" (pos 200) (bytes (1 ∷ 2 ∷ [])) [] blank written_sub
      written_sub tt refl (all_written written_sub)

abbrev count : ConnMsg (Data Toy) → ℕ → Result Bool × ℕ
count m n = (ok true, suc n)

read_c_msg_cb-write_sub_c_msg_example :
    read_c_msg_cb toy (toy_json "ConnVPNQ2" "") count 2 shared_key (concat written_sub.written) 0
    ≡ (err eof, 1)
unfolding written_sub write_queue_bytes write_sub packets
read_c_msg_cb-write_sub_c_msg_example =
    read_c_msg_cb-write_sub_c_msg toy-laws (toy_json-laws "ConnVPNQ2" "") count blank written_sub
      (msg "ConnVPNQ2" "" (pos 200) (bytes (1 ∷ 2 ∷ [])) ∷ []) 0 messages refl (omega arith)

-- The server's link box takes these bytes in one round.
abbrev pipe : List Bytes → LinkBox
pipe out = record {
  readr_size = 4096;
  link_reader = [];
  link_written = out;
  link_read_fn = none;
  link_write_fn = none;
}

abbrev passed : LinkBox
unfolding written_sub
passed = pipe (concat written_sub.written ∷ [])

passes : Rounds (pipe []) (concat written_sub.written) [] passed [] []
unfolding passed written_sub packets write_queue_bytes write_sub write_link_box_from_reader
    write_list go_cfc.LinkBox.writes read_some take drop
passes =
    Rounds.sends (some 4096) (λ n. true) 4096 (pipe []) passed passed (concat written_sub.written)
      [] [] [] [] refl (stops passed [] [])

sub_boxes_talk_example :
    read_c_msg_cb toy (toy_json "ConnVPNQ2" "") count 2 shared_key (concat passed.link_written) 0
    ≡ (err eof, 1)
unfolding passed written_sub write_queue_bytes write_sub packets
sub_boxes_talk_example =
    sub_boxes_talk toy-laws (toy_json-laws "ConnVPNQ2" "") count blank written_sub
      (msg "ConnVPNQ2" "" (pos 200) (bytes (1 ∷ 2 ∷ [])) ∷ []) (pipe []) passed [] [] 0 messages
      refl (omega arith) refl refl refl passes
