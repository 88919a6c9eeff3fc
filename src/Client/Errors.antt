-- ===== src/Client/Errors.antt =====
-- The errors that the client's calls return, and its requests: a call of WaitCb with a callback.
use go_cfc.Base.{ℕ, ◌≡◌, ◌⊎◌, inl, inr, refl, Option, none, some, List, String}
use go_cfc.Base.Int.{pos}
use go_cfc.Wire.Message.{ConnMsg, CheckError, check_conn_msg_header_and_code}
use go_cfc.Task.{TaskError}
use go_cfc.Server.State.{OdjClientInfo, SubInfo, OdjPing, VpnInfo}

-- The last three wrap another error: ErrAppend(ErrHandshakeIsBad, err), ErrOpenSubBoxBadAny(err)
-- and ErrAppend(ErrBoxStopListen, err).
pub data ClientError : Type 0 where
  name_is_nil key_is_not_32_bytes conn_is_nil box_is_nil : ClientError
  is_disabled sub_is_disable box_is_closed link_client_is_closed : ClientError
  bad_json req_bad open_sub_unexpected_odj unexpected_sub_open_type : ClientError
  -- the network, and the p2p dialling that fails three times
  resolve_failed dial_failed listen_failed read_failed write_failed close_failed p2p_open_bad :
      ClientError
  checked : CheckError → ClientError
  task : TaskError → ClientError
  handshake_is_bad open_sub_box_bad box_stop_listen : ClientError → ClientError

-- What WaitCb and KeepWaitCb of Task come to: no message in time (or none could be sent), or the
-- message that the callback is called with.
pub data Answer (D : Type 0) : Type 0 where
  no_answer : TaskError → Answer D
  answer : ConnMsg D → Answer D

-- A value or an error.
pub data Try {ℓ} (A : Type ℓ) : Type ℓ where
  fine : A → Try A
  fault : ClientError → Try A

infixl 5 ◌>>=◌
abbrev pub ◌>>=◌ {ℓ κ} : {A : Type ℓ} {B : Type κ} → Try A → (A → Try B) → Try B
fault failure >>= next = fault failure
fine value >>= next = next value

-- The callback `cb` decides.
unfoldable pub wait_answer : {D A : Type 0} → Answer D → (ConnMsg D → Try A) → Try A
wait_answer (no_answer e) cb = fault (task e)
wait_answer (answer m) cb = cb m

-- `if err != nil { return err }` after CheckConnMsgHeaderAndCode, and after cMsg.Unmarshal.
unfoldable pub check : {D : Type 0} → ConnMsg D → String → Try (Unit {0})
check m header = elim (check_conn_msg_header_and_code m header (pos 200)) [
  | none ↦ fine tt
  | some e ↦ fault (checked e)
]

abbrev pub decoded {ℓ} : {A : Type ℓ} → Option A → Try A
decoded none = fault bad_json
decoded (some a) = fine a

-- What cMsg.Unmarshal makes of the data of a message from the server; `none` is an error. An
-- OdjSubOpenResp is the pair of its Tid and Type, an OdjUP2PResp that of its Addr and Info.
pub record Replies : Type 1 where
  pub D : Type 0
  pub to_client_info : D → Option OdjClientInfo
  pub to_sub_open_resp : D → Option (String × String)
  pub to_sub_info : D → Option SubInfo
  pub to_pings : D → Option (List OdjPing)
  pub to_vpn_info : D → Option VpnInfo
  pub to_bytes : D → Option (List ℕ)
  pub to_up2p_id : D → Option String
  pub to_up2p_resp : D → Option (Option String × SubInfo)

pub Try-cases {ℓ} :
    {A : Type ℓ} (t : Try A) → ((e : ClientError) × (t ≡ fault e)) ⊎ ((a : A) × (t ≡ fine a))
Try-cases (fault e) = inl (e, refl)
Try-cases (fine a) = inr (a, refl)
