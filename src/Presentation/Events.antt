-- ===== src/Presentation/Events.antt =====
-- presentation/events: the connection to the broker, and which consumer gets a message. The client of
-- AMQP is a parameter. The router of Watermill hands a message of a topic to the handler that is
-- registered for it; the queues are durable, so that a message of another topic stays where it is.
pub mod Delivered
use dreon_notification.Prelude.{Bool, String, ◌==◌, List, [], ◌∷◌, if◌then◌else◌}
use dreon_notification.Go.Error.{Error, Result, ok, err, plain}
use dreon_notification.World.{World, Env, Message}
use dreon_notification.World.Exec.{Exec, pure}
use dreon_notification.Service.{NotificationSvc}
use dreon_notification.Service.Queue.{
  topic_send, topic_retry, process_from_queue, process_retry_from_queue,
}

module _ {Config Connection : Type 0} (new_durable_queue_config : String → Config)
    (connect : Config → Result Connection) where
  -- `amqpConfigFrom`
  unfoldable pub amqp_config_from : String → Result Config
  amqp_config_from url =
      if url == ""
      then err (plain "RABBITMQ_URL is required")
      else ok (new_durable_queue_config url)

  abbrev connect_with : Result Config → Result Connection
  connect_with (err e) = err e
  connect_with (ok c) = connect c

  -- `NewAMQPPublisher` and `NewAMQPSubscriber`, which differ in what they connect
  unfoldable pub new_amqp : String → Result Connection
  new_amqp url = connect_with (amqp_config_from url)

abbrev pub Handler : Type 0
Handler = Message → Exec (Unit {0})

-- The first handler of the topic gets the message.
unfoldable pub dispatch : List (String × Handler) → Handler
dispatch [] m = pure tt
dispatch ((topic, handle) ∷ rest) m = if topic == m.topic then handle m else dispatch rest m

module _ (env : Env) (svc : NotificationSvc) where
  -- What `RunConsumers` registers
  abbrev pub consumers : List (String × Handler)
  consumers =
      (topic_send, process_from_queue env svc)
      ∷ (topic_retry, process_retry_from_queue env svc)
      ∷ []

  unfoldable pub run_consumers : Handler
  run_consumers = dispatch consumers
