-- ===== src/Paxos/Types.antt =====
-- contrib/libpaxos/libpaxos.go: the message types, messages and packets.
use airline_booking.Prelude.{ℕ, Text}

pub data MsgType : Type 0 where
  nop prepare prepare_ok prepare_reject : MsgType
  accept accept_ok accept_reject : MsgType
  commit : MsgType
  propose learn epoch : MsgType

-- `Instance` is the field `slot`; instances and proposals are not negative.
pub record Msg : Type 0 where
  pub msg_type : MsgType
  pub proposal : ℕ
  pub value : Text
  pub slot : ℕ

pub record Packet : Type 0 where
  pub packet_msg : Msg
  pub packet_from : Text

abbrev pub msg : MsgType → ℕ → Text → ℕ → Msg
msg t n v i = record { msg_type = t; proposal = n; value = v; slot = i }

abbrev pub packet : MsgType → ℕ → Text → ℕ → Text → Packet
packet t n v i from = record { packet_msg = msg t n v i; packet_from = from }
