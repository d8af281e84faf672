-- ===== src/Examples/Links.antt =====
-- The theorems on the logger, on messages and on the waiting loops at concrete values.
use multi_constraint_iot_edg.Common.{
  inr, ℕ, ◌+◌, ◌*◌, ◌≡◌, refl, true, false, not, ◌&&◌, List, [], ◌∷◌, none, some, Text, codes,
  arith, if◌then◌else◌, u64, text_eq,
}
use multi_constraint_iot_edg.Common.Dict.{lookup}
use multi_constraint_iot_edg.Double.Fixed.{Fixed, fixed_double}
use multi_constraint_iot_edg.Logger.{
  Level, warn, Logger, new_logger, log, reads, lets_through, Adds, log_lem,
}
use multi_constraint_iot_edg.Mqtt.{
  Paho, MqttClient, Clients, register_message_callback, message_arrived,
}
use multi_constraint_iot_edg.Mqtt.Delivery.{message_arrived-first}
use multi_constraint_iot_edg.Runtime.{LiveRuntime}
use multi_constraint_iot_edg.Runtime.Draining.{Found, drain_loop}
use multi_constraint_iot_edg.Runtime.Ending.{Ends, drain_loop-Ends}
use multi_constraint_iot_edg.Scheduler.{new_task_scheduler, SchedulingStrategy}
use multi_constraint_iot_edg.Examples.{two_nodes, cluster}

abbrev console : Logger
console = record new_logger { min_level = warn; file_enabled = true; file_open = true }

log_lem_example :
    let file = λ (label : Text).
      if console.file_enabled && console.file_open && not console.file_failed
      then reads (codes "12:00") label (codes "A") (codes "b") ∷ []
      else [] in
    let line = λ (label : Text). reads (codes "12:00") label (codes "A") (codes "b") ∷ [] in
    let run = λ (level : Level). log (some (codes "12:00")) level (codes "A") (codes "b") console in
    Adds [] (line (codes "ERROR")) (file (codes "ERROR")) console (run Level.error)
    × (if lets_through console.min_level Level.warn
        then Adds [] (line (codes "WARN")) (file (codes "WARN")) console (run Level.warn)
        else (run Level.warn ≡ console))
    × (if lets_through console.min_level Level.info
        then Adds (line (codes "INFO")) [] (file (codes "INFO")) console (run Level.info)
        else (run Level.info ≡ console))
    × (if lets_through console.min_level Level.debug
        then Adds (line (codes "DEBUG")) [] (file (codes "DEBUG")) console (run Level.debug)
        else (run Level.debug ≡ console))
log_lem_example = log_lem (codes "12:00") (codes "A") (codes "b") console

-- A broker that accepts everything, with texts for documents; each client counts its messages.
abbrev loopback : Paho ℕ Text
loopback = record {
  is_connected = λ c. true;
  connect = λ c. (c, true);
  disconnect = λ c. (c, true);
  publish = λ topic payload qos c. (c, true);
  subscribe = λ topic qos c. (c, true);
  dump = λ t. t;
  parse = λ t. some t;
}

abbrev first_client : MqttClient ℕ Text (List Text)
first_client = record {
  client = some 1;
  calls_adapter = false;
  message_callback = none;
  messages_published = 0;
  messages_received = 0;
}

abbrev second_client : MqttClient ℕ Text (List Text)
second_client = record {
  client = some 2;
  calls_adapter = false;
  message_callback = none;
  messages_published = 0;
  messages_received = 0;
}

abbrev two_clients : Clients ℕ Text (List Text)
two_clients = record {
  clients = (codes "a", first_client) ∷ (codes "b", second_client) ∷ [];
  adapter_owner = none;
}

abbrev keep_topic : Text → Text → List Text → List Text
keep_topic topic payload s = topic ∷ s

abbrev keep_payload : Text → Text → List Text → List Text
keep_payload topic payload s = payload ∷ s

at_a : lookup (codes "a") two_clients.clients ≡ some first_client
unfolding lookup text_eq
at_a = refl

at_b : lookup (codes "b") two_clients.clients ≡ some second_client
unfolding lookup text_eq
at_b = refl

names_differ : text_eq (codes "a") (codes "b") ≡ false
unfolding text_eq
names_differ = refl

message_arrived-first_example :
    let (w', s') =
      message_arrived loopback
        (codes "b")
        (codes "t")
        (codes "p")
        (register_message_callback
          (codes "b")
          keep_payload
          (register_message_callback (codes "a") keep_topic two_clients))
        [] in
    (lookup (codes "a") w'.clients
      ≡ some (record first_client {
        message_callback = some keep_topic;
        calls_adapter = true;
        messages_received = u64 (first_client.messages_received + 1);
      }))
    × (lookup (codes "b") w'.clients
        ≡ some
            (record second_client { message_callback = some keep_payload; calls_adapter = true }))
    × (s' ≡ elim (loopback.parse (codes "p")) [
      | some document ↦ keep_topic (codes "t") document []
      | none ↦ []
    ])
message_arrived-first_example =
    message_arrived-first loopback (codes "a") (codes "b") (codes "b") (codes "t") (codes "p")
      keep_topic keep_payload two_clients first_client second_client 1 2 [] refl at_a at_b refl refl
      names_differ (inr refl)

-- The first node has tasks that nobody takes, and a turn takes a tenth of a second.
abbrev found : ℕ → Found Fixed ℕ
found k = record {
  now = 7 + 100_000_000 * k;
  stop_requested = false;
  nodes = two_nodes;
  active_tasks = [];
}

abbrev live_runtime : LiveRuntime Fixed ℕ
live_runtime = record {
  cluster = cluster;
  scheduler = new_task_scheduler SchedulingStrategy.priority_based;
  automatic_mode = false;
  strategy = codes "priority_based";
  scheduling = codes "priority_based";
}

drain_loop-Ends_example :
    Ends 30_000_000_007 found (drain_loop 301 30_000_000_007 found 0 live_runtime)
drain_loop-Ends_example =
    drain_loop-Ends 30_000_000_007 found live_runtime (λ k. omega arith) (omega arith)
