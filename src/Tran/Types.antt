-- ===== src/Tran/Types.antt =====
-- contrib/tranlayer/coordinator.go and tranlayer.go: the coordinator's state and its requests. A
-- connection and a reply channel are numbers.
use airline_booking.Prelude.{ℕ, Bool, List, nat_eq, Text, text_eq}
use airline_booking.Prelude.Assoc.{Assoc}
use airline_booking.Airline.Types.{TranArgs}

pub record ActiveTrans : Type 0 where
  pub decision : ℕ
  pub finished : ℕ
  pub ppt_map : Assoc Text ℕ
  pub commit_grp : Assoc Text ℕ

pub record TranOrder : Type 0 where
  pub flight_id : Text
  pub ppt_id : Text
  pub amount : ℕ
  pub conn : ℕ

pub record OldTransaction : Type 0 where
  pub order_list : List TranOrder
  pub ppt_list : List Text

-- `answered` are the reply channels of BookingFlights on which an answer was sent: it receives one, and
-- the channels have no buffer.
pub record TranLayer : Type 0 where
  pub myhostport : Text
  pub active_trans_map : Assoc Text ActiveTrans
  pub defer_trans_map : Assoc Text ℕ
  pub old_transaction_map : Assoc Text OldTransaction
  pub old_log : Assoc Text ℕ
  pub answered : List ℕ

-- A call over a connection, a call to a server by its address, what goes over a reply channel, a timer.
pub data Effect : Type 0 where
  call : ℕ → TranArgs → Effect
  call_server : Text → TranArgs → Effect
  reply_status : ℕ → Bool → Effect
  reply_decision : ℕ → ℕ → Effect
  trans_timer : Text → Effect

pub data Request : Type 0 where
  init_trans : Text → List TranOrder → ℕ → Request
  response_trans : TranArgs → Request
  trans_expired : Text → Request
  old_trans : TranArgs → ℕ → Request
