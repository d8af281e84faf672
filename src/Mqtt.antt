-- ===== src/Mqtt.antt =====
-- mqtt_client.h and mqtt_client.cpp: connections to a broker, and the callback for messages. Paho, which
-- talks to the broker, and the reading and writing of JSON are no code of the repository: they are
-- parameters. The messages to the logger are left out.
pub mod Delivery
use multi_constraint_iot_edg.Common.{
  ◌||◌, ◌&&◌, ℕ, ◌+◌, Bool, true, false, List, [], ◌∷◌, Option, none, some, Text, if◌then◌else◌,
  u64, ltb, ℤ, pos, ltb_ℤ,
}
use multi_constraint_iot_edg.Common.Dict.{lookup, adjust, Dict}

-- A connection of the type `C`. Each call may throw, which gives `false`. `dump` is read as total: it
-- throws only for texts that are not UTF-8.
pub record Paho (C J : Type 0) : Type 0 where
  pub is_connected : C → Bool
  pub connect : C → C × Bool
  pub disconnect : C → C × Bool
  pub publish : Text → Text → ℤ → C → C × Bool
  pub subscribe : Text → ℤ → C → C × Bool
  -- `dump` and `parse`; `none` is a parse error.
  pub dump : J → Text
  pub parse : Text → Option J

-- `S` is what the callback changes. `calls_adapter` tells whether `set_callback` has given the adapter to the
-- client's connection, which then calls it for each message.
pub record MqttClient (C J S : Type 0) : Type 0 where
  pub client : Option C
  pub calls_adapter : Bool
  pub message_callback : Option (Text → J → S → S)
  pub messages_published : ℕ
  pub messages_received : ℕ

abbrev pub default_qos : ℤ
default_qos = pos 1

unfoldable pub qos_or_default : ℤ → ℤ
qos_or_default qos = if ltb_ℤ (pos 0) qos then qos else default_qos

module _ {C J S : Type 0} where
  unfoldable pub new_mqtt_client : C → MqttClient C J S
  new_mqtt_client client = record {
    client = some client;
    calls_adapter = false;
    message_callback = none;
    messages_published = 0;
    messages_received = 0;
  }

  abbrev pub with_client : C → MqttClient C J S → MqttClient C J S
  with_client c m = record m { client = some c }

module _ {C J : Type 0} (paho : Paho C J) where
  connected_by : Option C → Bool
  connected_by none = false
  connected_by (some c) = paho.is_connected c

module _ {C J S : Type 0} (paho : Paho C J) where
  connect_by : Option C → MqttClient C J S → MqttClient C J S × Bool
  connect_by none m = (m, false)
  connect_by (some c) m =
      let (c', done) = paho.connect c in
      (with_client c' m, if done then paho.is_connected c' else false)

  unfoldable pub connect : MqttClient C J S → MqttClient C J S × Bool
  unfolding connect_by
  connect m = connect_by m.client m

  disconnect_by : Option C → MqttClient C J S → MqttClient C J S
  disconnect_by none m = m
  disconnect_by (some c) m = if paho.is_connected c then with_client (paho.disconnect c).0 m else m

  unfoldable pub disconnect : MqttClient C J S → MqttClient C J S
  unfolding disconnect_by
  disconnect m = disconnect_by m.client m

  unfoldable pub is_connected : MqttClient C J S → Bool
  unfolding connected_by
  is_connected m = connected_by paho m.client

  publish_by : Text → J → ℤ → Option C → MqttClient C J S → MqttClient C J S × Bool
  publish_by topic payload qos none m = (m, false)
  publish_by topic payload qos (some c) m =
      let (c', done) = paho.publish topic (paho.dump payload) (qos_or_default qos) c in
      if paho.is_connected c
      then if done
        then (
          record (with_client c' m) { messages_published = u64 (m.messages_published + 1) },
          true,
        )
        else (with_client c' m, false)
      else (m, false)

  unfoldable pub publish : Text → J → ℤ → MqttClient C J S → MqttClient C J S × Bool
  unfolding publish_by
  publish topic payload qos m = publish_by topic payload qos m.client m

  subscribe_by : Text → ℤ → Option C → MqttClient C J S → MqttClient C J S × Bool
  subscribe_by topic qos none m = (m, false)
  subscribe_by topic qos (some c) m =
      let (c', done) = paho.subscribe topic (qos_or_default qos) c in
      if paho.is_connected c then (with_client c' m, done) else (m, false)

  unfoldable pub subscribe : Text → ℤ → MqttClient C J S → MqttClient C J S × Bool
  unfolding subscribe_by
  subscribe topic qos m = subscribe_by topic qos m.client m

  unfoldable pub call_back : Option (Text → J → S → S) → Text → Option J → S → S
  call_back (some f) topic (some payload) s = f topic payload s
  call_back _ topic _ s = s

  -- A payload is parsed only for a callback; one that is no JSON is dropped.
  unfoldable pub on_message_arrived : Text → Text → MqttClient C J S → S → MqttClient C J S × S
  unfolding call_back
  on_message_arrived topic raw_payload m s = (
    record m { messages_received = u64 (m.messages_received + 1) },
    call_back m.message_callback topic (paho.parse raw_payload) s,
  )

-- The clients of a process under their names, and the client that the adapter holds: the adapter is a
-- `static` of `registerMessageCallback`, made at its first call.
pub record Clients (C J S : Type 0) : Type 0 where
  pub clients : Dict (MqttClient C J S)
  pub adapter_owner : Option Text

-- The adapter is given the client under `name`, unless there is an adapter already.
owner_after : {C : Type 0} → Option C → Text → Option Text → Option Text
owner_after none name owner = owner
owner_after (some c) name none = some name
owner_after (some c) name (some owner) = some owner

-- `client_ != nullptr`.
abbrev pub has_connection : {C : Type 0} → Option C → Bool
has_connection none = false
has_connection (some c) = true

connection : {C J S : Type 0} → Option (MqttClient C J S) → Option C
connection none = none
connection (some m) = m.client

module _ {C J S : Type 0} where
  unfoldable pub register_message_callback :
      Text → (Text → J → S → S) → Clients C J S → Clients C J S
  unfolding owner_after connection
  register_message_callback name callback w = record {
    clients =
        adjust name
          (λ m. record m {
            message_callback = some callback;
            calls_adapter = has_connection m.client || m.calls_adapter;
          })
          w.clients;
    adapter_owner = owner_after (connection (lookup name w.clients)) name w.adapter_owner;
  }

module _ {C J S : Type 0} (paho : Paho C J) where
  arrive_at : Text → Text → Text → Option (MqttClient C J S) → Clients C J S → S → Clients C J S × S
  arrive_at owner topic payload none w s = (w, s)
  arrive_at owner topic payload (some m) w s =
      let (m', s') = on_message_arrived paho topic payload m s in
      (record w { clients = adjust owner (λ old. m') w.clients }, s')

  deliver_to : Option Text → Text → Text → Clients C J S → S → Clients C J S × S
  unfolding arrive_at
  deliver_to none topic payload w s = (w, s)
  deliver_to (some owner) topic payload w s =
      arrive_at owner topic payload (lookup owner w.clients) w s

  arrive_by : Option (MqttClient C J S) → Text → Text → Clients C J S → S → Clients C J S × S
  unfolding deliver_to
  arrive_by none topic payload w s = (w, s)
  arrive_by (some m) topic payload w s =
      let delivered = deliver_to w.adapter_owner topic payload w s in
      if has_connection m.client && m.calls_adapter then delivered else (w, s)

  -- A message that arrives at the connection of the client under a name.
  unfoldable pub message_arrived : Text → Text → Text → Clients C J S → S → Clients C J S × S
  unfolding arrive_by
  message_arrived name topic payload w s = arrive_by (lookup name w.clients) topic payload w s
