-- ===== src/Client/Runs.antt =====
-- Concrete runs of the client, and its theorems at concrete inputs.
use go_cfc.Client.SubTypes.{
  get_sub_box_by_sub_type_mix, mix_loop, get_sub_box_by_sub_type, nil_errs, got, sub_type_invalid,
}
use go_cfc.Client.Mixing.{Around, ways, as_got, closed_box_opens_nothing}
use go_cfc.Base.{
  ℕ, ◌≡◌, refl, true, false, Bool, Option, none, some, List, [], ◌∷◌, ◌++◌, String, Bytes, arith,
}
use go_cfc.Wire.Message.{check_conn_msg_header_and_code, new_key}
use go_cfc.Wire.Toys.{shared_key}
use go_cfc.Wire.Cipher.{same_bytes}
use go_cfc.Task.{timed_out}
use go_cfc.Base.Assoc.{insert, delete}
use go_cfc.Server.State.{World}
use go_cfc.Client.Errors.{sub_is_disable, wait_answer, check, Answer, fine, task}
use go_cfc.Client.State.{update, DeviceBox, new_box, new_sub}
use go_cfc.Client.Boxes.{
  set_sub_box, set_deadline_duration, close_range, close_sub, close_sub_within, close_all_subs,
  del_sub_box, close_conn, close_box, get_sub_box_from_sid, write_sub, read_sub,
}
use go_cfc.Client.Boxes.Closed.{IsDisabled}
use go_cfc.Client.Opening.{shake, fast_handshake, on_open_a, on_task_a, is_whole, get_sub_box}
use go_cfc.Client.Opening.Shutdown.{closed_box_closes_subs}
use go_cfc.Client.Opening.Lives.{Lives, born, after, opens}
use go_cfc.Client.Up2p.{Event, packet, tick, over, handshake_up2p}
use go_cfc.Client.Up2p.Handshake.{Waits, no_more, round, ignored, handshake_up2p_lem}
use go_cfc.Client.Toys.{replies, message, world, blank, empty_box}

-- A handshake: a stranger's packet, a round, the packet, two rounds.
abbrev peer : String
peer = "2.2.2.2:9"

abbrev kid : Bytes
kid = 101 ∷ []

abbrev before : List Event
before = packet "3.3.3.3:3" (1 ∷ []) ∷ tick true ∷ []

waits : Waits peer kid true 1 before
waits = ignored 1 (tick true ∷ []) "3.3.3.3:3" (1 ∷ []) refl (round 0 [] no_more)

handshake_up2p_lem_example :
    (Waits peer kid true 3 before → handshake_up2p peer kid before ≡ over (some (task timed_out)) 3)
    × (Waits peer kid true 1 before
        → Waits peer kid false 1 (tick true ∷ [])
        → handshake_up2p peer kid (before ++ packet peer kid ∷ tick true ∷ []) ≡ over none 2)
unfolding same_bytes
handshake_up2p_lem_example =
    handshake_up2p_lem peer kid 1 before (tick true ∷ []) peer kid refl (omega arith)

-- A box that opens a sub box and is closed; the heap begins without sub boxes that are closed.
abbrev linked_box : DeviceBox
linked_box = record empty_box { has_conn = true }

abbrev opened_box : DeviceBox
unfolding get_sub_box shake fast_handshake new_sub set_sub_box update on_open_a on_task_a is_whole
    check wait_answer check_conn_msg_header_and_code insert set_deadline_duration close_sub
    close_sub_within close_all_subs del_sub_box
opened_box = (get_sub_box replies world (message "sOpenA") (message "TaskA") linked_box).1

abbrev closed_box : DeviceBox
unfolding opened_box close_box close_range close_sub close_sub_within close_all_subs del_sub_box
    close_conn update insert delete
closed_box = elim (close_box opened_box) [ none ↦ opened_box | some (e, t) ↦ t ]

box_made : new_box world (λ q. blank) "ann" "7.7.7.7:7" shared_key.key false ≡ fine empty_box
unfolding new_box new_key
box_made = refl

Lives-opened : Lives replies opened_box
unfolding opened_box
Lives-opened =
    after linked_box opened_box
      (born world (λ q. blank) "ann" "7.7.7.7:7" shared_key.key false empty_box (λ q. refl)
        box_made)
      (opens world (message "sOpenA") (message "TaskA") linked_box)

closes_it : close_box opened_box ≡ some (none, closed_box)
unfolding opened_box closed_box close_box close_range close_sub close_sub_within close_all_subs
    del_sub_box close_conn update insert delete
closes_it = refl

closed_box_closes_subs_example :
    ((id : String) (q : ℕ)
      → get_sub_box_from_sid id opened_box ≡ some q
      → IsDisabled closed_box q
        × ((accepts : Bool) (now : ℕ) (b : Bytes)
            → write_sub accepts now b (closed_box.subs q)
              ≡ (some sub_is_disable, closed_box.subs q))
        × ((got : Option Bytes) (now : ℕ)
            → read_sub got now (closed_box.subs q) ≡ (some sub_is_disable, closed_box.subs q)))
    × ((w : World) (a b : Answer (Unit {0})) (q : ℕ)
        → (get_sub_box replies w a b closed_box).0 ≡ fine q
        → IsDisabled (get_sub_box replies w a b closed_box).1 q)
unfolding opened_box get_sub_box shake fast_handshake new_sub set_sub_box update on_open_a on_task_a
    is_whole check wait_answer check_conn_msg_header_and_code insert
closed_box_closes_subs_example =
    closed_box_closes_subs replies opened_box closed_box none Lives-opened refl refl closes_it

-- The box that was closed is asked for another sub box, with a way that there is not before.
abbrev around : String → DeviceBox → Around replies
around name s = record {
  world = world;
  opens = message "sOpenA";
  shakes = message "TaskA";
  listens = true;
  accepted = none;
  punching = record {
    listens = true;
    tells = [];
    events = [];
    second = none;
    kcp_made = true;
    kcp_served = true;
    accepted = [];
  };
}

abbrev bytes_of : String → Bytes
bytes_of name = []

abbrev late_box : DeviceBox
unfolding closed_box opened_box get_sub_box shake fast_handshake new_sub set_sub_box update
    on_open_a on_task_a is_whole check wait_answer check_conn_msg_header_and_code insert close_sub
    close_sub_within close_all_subs del_sub_box close_conn delete
late_box = (get_sub_box replies world (message "sOpenA") (message "TaskA") closed_box).1

late_mix :
    get_sub_box_by_sub_type_mix
      (ways replies bytes_of around)
      "bob"
      ("TCP" ∷ "SubTypeProxy" ∷ [])
      closed_box
    ≡ some (got 1, some sub_type_invalid ∷ none ∷ [], late_box)
unfolding late_box closed_box opened_box get_sub_box shake fast_handshake new_sub set_sub_box update
    on_open_a on_task_a is_whole check wait_answer check_conn_msg_header_and_code insert close_sub
    close_sub_within close_all_subs del_sub_box close_conn delete get_sub_box_by_sub_type_mix
    mix_loop get_sub_box_by_sub_type ways as_got nil_errs close_box close_range
late_mix = refl

closed_box_opens_nothing_example :
    ((accepts : Bool) (now : ℕ) (b : Bytes)
      → write_sub accepts now b (late_box.subs 1) ≡ (some sub_is_disable, late_box.subs 1))
    × ((given : Option Bytes) (now : ℕ)
        → read_sub given now (late_box.subs 1) ≡ (some sub_is_disable, late_box.subs 1))
unfolding opened_box
closed_box_opens_nothing_example =
    closed_box_opens_nothing replies bytes_of around opened_box closed_box late_box none "bob"
      ("TCP" ∷ "SubTypeProxy" ∷ []) 1 (some sub_type_invalid ∷ none ∷ []) Lives-opened refl refl
      closes_it late_mix
