-- ===== src/World.antt =====
-- The state that the parts of the service share, and how a Go method acts on it. A method with the
-- results `(A, error)` is an `Exec A`: what was done before an error stays done. The outside is the
-- parameter `Env`, which answers each call by its number, so that any two calls may be answered in
-- different ways and a theorem about every `Env` covers every course of events.
pub mod Exec
pub mod Frame
pub mod Quiet
pub mod Within
pub mod Ensures
use dreon_notification.Prelude.{ℕ, suc, Bool, String, List, Option}
use dreon_notification.Go.Error.{Error, Result}
use dreon_notification.Go.Value.{Value}
use dreon_notification.Model.{Notification, Mailbox, UserFcmToken, PushTopic}

-- What the database holds.
pub record Tables : Type 0 where
  pub notifications : List Notification
  pub mailboxes : List Mailbox
  pub fcm_tokens : List UserFcmToken
  pub push_topics : List PushTopic

-- A message of the broker: its topic, and the UUID and payload of `message.NewMessage`. A payload
-- that is no JSON document is `none`.
pub record Message : Type 0 where
  pub topic : String
  pub uuid : String
  pub payload : Option Value

-- email.EmailData, sms.SMSData and fcm.PushMessage
pub record EmailData : Type 0 where
  pub from : String
  pub recipients : List String
  pub subject : String
  pub html : String

pub record SmsData : Type 0 where
  pub recipients : List String
  pub body : String

pub record PushMessage : Type 0 where
  pub title : String
  pub body : String
  pub entries : List (String × String)

-- One call of a delivery client, whatever its answer.
pub data Delivery : Type 0 where
  email : EmailData → Delivery
  sms : SmsData → Delivery
  push_tokens : List String → PushMessage → Delivery
  push_topics : List String → PushMessage → Delivery

-- What Redis holds under a key: a string with the time at which the key expires (`none`: never), or a
-- sorted set, the highest entry first. A string is the text that go-redis writes for a scalar, or a
-- JSON document. A score stands for its place in the order of the float64 numbers, which Redis
-- compares and returns.
pub data Text : Type 0 where
  scalar : Value → Text
  document : Value → Text

pub record Entry : Type 0 where
  pub member : String
  pub score : ℕ

pub data Item : Type 0 where
  text : Text → Option ℕ → Item
  board : List Entry → Item

pub record World : Type 0 where
  pub tables : Tables
  pub open tables use *
  -- what the broker has accepted, oldest first
  pub published : List Message
  -- the calls of the delivery clients, oldest first
  pub deliveries : List Delivery
  -- the keys of Redis; an earlier item of a key hides the later ones
  pub cache : List (String × Item)
  -- how many calls have left the program
  pub calls : ℕ

-- The outside. `db_fault n` is the error of call n, if that is a database call and it fails. `rank n`
-- gives the order, by the rows' ids, in which the database returns rows that it need not sort,
-- `locked n id` says whether another transaction holds the lock of the row, and `to_double` is the
-- database's conversion of an integer to `double precision`, with the value as a number.
pub record Env : Type 0 where
  pub clock : ℕ → ℕ
  pub db_fault : ℕ → Option Error
  pub new_id : ℕ → Result String
  pub rank : ℕ → String → ℕ
  pub locked : ℕ → String → Bool
  pub to_double : ℕ → ℕ
  pub redis_fault : ℕ → Option Error
