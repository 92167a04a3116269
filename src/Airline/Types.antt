-- ===== src/Airline/Types.antt =====
-- contrib/airlineproto/airlineproto.go, official/transaction/transaction.go and the state of
-- contrib/airlineimpl/airlineimpl.go. An int is a 64-bit word, a pointer to a flight its contents:
-- no two entries of flightBuf share one.
use airline_booking.Prelude.{ℕ, Bool, Option, List, nat_eq, Text, text_eq}
use airline_booking.Prelude.Assoc.{Assoc}

-- The transaction types and the votes of official/transaction.
abbrev pub trans_init : ℕ
trans_init = 0

abbrev pub trans_response : ℕ
trans_response = 1

abbrev pub trans_old : ℕ
trans_old = 2

abbrev pub trans_old_response : ℕ
trans_old_response = 3

abbrev pub not_decided : ℕ
not_decided = 0

abbrev pub commit : ℕ
commit = 1

abbrev pub abort : ℕ
abort = 2

pub record FlightInfo : Type 0 where
  pub id : Text
  pub departure : Text
  pub from : Text
  pub to : Text
  pub capacity : ℕ
  pub slot : ℕ
  pub cost : ℕ

pub record TranArgs : Type 0 where
  pub tran_type : ℕ
  pub tran_id : Text
  pub flight_id : Text
  pub amount : ℕ
  pub ppt_list : List Text
  pub vote : ℕ
  pub tm : Text

pub data LogType : Type 0 where
  start : LogType
  update : LogType
  end : LogType

pub record TransLog : Type 0 where
  pub log_type : LogType
  pub trans_id : Text
  pub flight_id : Text
  pub old : ℕ
  pub new : ℕ
  pub ppt_list : List Text
  pub tm : Text

-- A reply channel is a number; the connections of libconn and libpaxos have no field.
pub record AirlineServer : Type 0 where
  pub cmd_no : ℕ
  pub airline_id : Text
  pub myhostport : Text
  pub log_buf : Assoc Text (List TransLog)
  pub flight_buf : Assoc Text FlightInfo
  pub flight_query_buf : Assoc Text Text
  pub lock_buf : Assoc Text Bool
  pub old_log : Assoc Text ℕ
  pub old_replyc_map : Assoc ℕ ℕ

-- What goes over a reply channel.
pub data Answer : Type 0 where
  status : Bool → Answer
  flight : Option FlightInfo → Answer
  flights : List Text → Answer
  decision : ℕ → Answer

pub data Effect : Type 0 where
  reply : Answer → Effect
  propose_command : Text → Effect
  trans_response_to : Text → TranArgs → Effect
  trans_timer : Text → Effect
  transaction : TranArgs → Effect

-- What comes over reqChan, by reqType. `own` marks the replica that the client asked.
pub data Request : Type 0 where
  create_flight : Text → FlightInfo → Request
  get_flight : Text → Request
  get_all_flights : Text → Request
  init_trans : Bool → TranArgs → Request
  response_trans : TranArgs → Request
  trans_expired : Bool → Text → Request
  old_trans : TranArgs → Request
  old_response : Text → ℕ → Request
  paxos_request : Text → ℕ → Request
