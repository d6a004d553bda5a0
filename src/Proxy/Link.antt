-- ===== src/Proxy/Link.antt =====
-- cms/ioproxy.c: the state of the inside proxy's link to the external proxy over the 3270 console,
-- and the transitions that send a handshake. An interrupt is taken as one step.
use nicof.Prelude.{
  ℕ, Bool, not, Option, none, some, List, [], ◌∷◌, take, get_elem?, ◌==◌, if◌then◌else◌,
}
use nicof.Proxy.{Proxy, Request, init_request_buffers, get_next_request_to_send, accept_request}

-- The values of `pstate`.
abbrev pub s_initial : ℕ
s_initial = 10

abbrev pub s_i_welcome : ℕ
s_i_welcome = 11

abbrev pub s_i_idle : ℕ
s_i_idle = 20

abbrev pub s_idle : ℕ
s_idle = 21

abbrev pub s_i_transmitprep : ℕ
s_i_transmitprep = 30

abbrev pub s_transmitprep : ℕ
s_transmitprep = 31

abbrev pub s_i_transmitting : ℕ
s_i_transmitting = 32

abbrev pub s_transmitting : ℕ
s_transmitting = 33

abbrev pub s_i_receiving : ℕ
s_i_receiving = 40

abbrev pub s_receiving : ℕ
s_receiving = 41

abbrev pub s_i_reset : ℕ
s_i_reset = 50

abbrev pub s_reset : ℕ
s_reset = 51

abbrev pub s_i_reconnect_cpread : ℕ
s_i_reconnect_cpread = 61

-- The packet that `ccw_xmit_packet` writes to the external proxy: `data_xmit_header`, and the data
-- where there are any.
pub record Xmit : Type 0 where
  pub user : ℕ
  pub user_word1 : ℕ
  pub user_word2 : ℕ
  pub slot : ℕ
  pub bytes : List ℕ

-- The channel programs.
pub data Ccw : Type 0 where
  handshake_welcome handshake_welcomeb handshake_willsend handshake_ack : Ccw
  handshake_dosend handshake_reset handshake_dump : Ccw
  reconnect_cpread reconnect_dialed recv_data : Ccw
  xmit_packet : Xmit → Ccw

-- What the proxy asks of CP: a channel program for the console, or a VMCF call for the user and the
-- message of a request.
pub data Action : Type 0 where
  sio : Ccw → Action
  vmcf_receive : (user msg_id : ℕ) → Action
  vmcf_reply : (user msg_id user_word1 user_word2 : ℕ) (bytes : List ℕ) → Action
  vmcf_reject : (user msg_id reason : ℕ) → Action

-- sendVmcfReject
abbrev pub send_vmcf_reject : ℕ → ℕ → ℕ → Action
send_vmcf_reject user msg_id reason = vmcf_reject user msg_id reason

-- readVmcfRequestIntoSlot
abbrev pub read_vmcf_request_into_slot : Request → Action
read_vmcf_request_into_slot req = vmcf_receive req.user req.msg_id

-- sendVmcfReplyForSlot
abbrev pub send_vmcf_reply_for_slot : Request → ℕ → ℕ → List ℕ → Action
send_vmcf_reply_for_slot req user_word1 user_word2 bytes =
    vmcf_reply req.user req.msg_id user_word1 user_word2 bytes

-- `actions` logs what has been asked of CP, the latest first.
pub record Link : Type 0 where
  pub proxy : Proxy
  pub pstate : ℕ
  pub in_recv : Bool
  pub using_binary_transfer : Bool
  pub actions : List Action

abbrev pub ask : Action → Link → Link
ask a l = record l { actions = a ∷ l.actions }

-- The shape of the `enter_` macros.
abbrev pub enter : ℕ → Ccw → Link → Link
enter s ccw l = ask (sio ccw) (record l { pstate = s })

-- send_Dump
abbrev pub send_dump : Link → Link
send_dump l = ask (sio handshake_dump) l

abbrev pub enter_i_welcome : Link → Link
enter_i_welcome = enter s_i_welcome handshake_welcome

abbrev pub enter_i_welcomebin : Link → Link
enter_i_welcomebin = enter s_i_welcome handshake_welcomeb

abbrev pub enter_i_transmitprep : Link → Link
enter_i_transmitprep = enter s_i_transmitprep handshake_willsend

abbrev pub enter_i_receiving : Link → Link
enter_i_receiving = enter s_i_receiving handshake_dosend

abbrev pub enter_i_idle : Link → Link
enter_i_idle = enter s_i_idle handshake_ack

abbrev pub enter_i_reset : Link → Link
enter_i_reset = enter s_i_reset handshake_reset

abbrev pub enter_i_reconnect_cpread : Link → Link
enter_i_reconnect_cpread = enter s_i_reconnect_cpread reconnect_cpread

abbrev pub enter_i_reconnect_dialed : Link → Link
enter_i_reconnect_dialed = enter s_initial reconnect_dialed

-- enter_iTRANSMITTING for a request; `in_data` is what the RECEIVE leaves in its buffer.
unfoldable pub enter_i_transmitting : ℕ → Request → List ℕ → Link → Link
enter_i_transmitting slot req in_data l =
    let packet : Xmit = record {
      user = req.user;
      user_word1 = req.user_word1;
      user_word2 = req.user_word2;
      slot = slot;
      bytes = take req.in_data_len in_data;
    } in
    ask (sio (xmit_packet packet))
      (ask (read_vmcf_request_into_slot req) (record l { pstate = s_i_transmitting }))

-- enter_iTRANSMITTING(getNextRequestToSend()); `none` is the use of a NULL request.
unfoldable pub transmit_next : List ℕ → Link → Option Link
transmit_next in_data l =
    let (p, next) = get_next_request_to_send l.proxy in
    elim next [
      | none ↦ none
      | some slot ↦ elim (get_elem? p.requests slot) [
        | none ↦ none
        | some req ↦ some (enter_i_transmitting slot req in_data (record l { proxy = p }))
      ]
    ]

-- The rejects of resetAllRequests.
unfoldable pub reject_all : List Request → List Action → List Action
reject_all [] acts = acts
reject_all (r ∷ rs) acts =
    reject_all rs (if r.msg_id == 0 then acts else send_vmcf_reject r.user r.msg_id 2 ∷ acts)

unfoldable pub reset_all_requests : Link → Link
reset_all_requests l = record l {
  proxy = init_request_buffers;
  actions = reject_all l.proxy.requests l.actions;
}

-- handleExt for a VMCF SEND/RECV.
unfoldable pub handle_senr : Request → Link → Link
handle_senr head l =
    let (p, taken) = accept_request head l.proxy in
    if not taken
    then ask (send_vmcf_reject head.user head.msg_id 1) (record l { proxy = p })
    else if l.pstate == s_idle
    then enter_i_transmitprep (record l { proxy = p })
    else record l { proxy = p }
