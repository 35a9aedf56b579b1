-- ===== src/Msg.antt =====
-- The message kinds and message formats of transaction_management/msg.h. A message id is a number,
-- since any 32-bit value may come from the network.
use distributed_system.Base.{ℕ, List}
use distributed_system.Clock.{Clock}

abbrev pub begintx : ℕ
begintx = 1000

abbrev pub jointx : ℕ
jointx = 1001

abbrev pub new_a : ℕ
new_a = 1002

abbrev pub new_b : ℕ
new_b = 1003

abbrev pub new_idstr : ℕ
new_idstr = 1004

abbrev pub delay_response : ℕ
delay_response = 1005

abbrev pub crash : ℕ
crash = 1006

abbrev pub commit : ℕ
commit = 1007

abbrev pub commit_crash : ℕ
commit_crash = 1008

abbrev pub abort : ℕ
abort = 1009

abbrev pub abort_crash : ℕ
abort_crash = 1010

abbrev pub vote_abort : ℕ
vote_abort = 1011

abbrev pub vote_commit : ℕ
vote_commit = 1012

abbrev pub join_fail : ℕ
join_fail = 1013

abbrev pub join_success : ℕ
join_success = 1014

abbrev pub begin_fail : ℕ
begin_fail = 1015

abbrev pub begin_success : ℕ
begin_success = 1016

abbrev pub prepare_commit : ℕ
prepare_commit = 1017

abbrev pub commit_req : ℕ
commit_req = 1018

abbrev pub poll_decision : ℕ
poll_decision = 1019

abbrev pub restarted : ℕ
restarted = 1020

abbrev pub decide_abort : ℕ
decide_abort = 2000

abbrev pub decide_commit : ℕ
decide_commit = 2001

abbrev pub wait : ℕ
wait = 2002

-- A sockaddr_in: the address and the port, in host byte order.
pub record Addr : Type 0 where
  pub host : ℕ
  pub sin_port : ℕ

-- txMessage, between worker and manager.
pub record TxMessage : Type 0 where
  pub msg_id : ℕ
  pub tid : ℕ
  pub node_id : ℕ
  pub is_crash : ℕ
  pub vector_clock : List Clock

-- msgType, from the command program. `new_value` and `delay` are int32_t values, kept as their
-- 32-bit patterns; `str_data` is the union of newID and hostName, 64 bytes.
pub record CmdMessage : Type 0 where
  pub msg_id : ℕ
  pub tid : ℕ
  pub port : ℕ
  pub new_value : ℕ
  pub delay : ℕ
  pub str_data : List ℕ
