-- ===== src/Mqtt/Delivery.antt =====
-- To whom mqtt_client.cpp delivers a message when a process has more than one client.
use multi_constraint_iot_edg.Common.{
  ◌+◌, ◌||◌, ◌&&◌, ◌⊎◌, Option, inl, inr, true, ◌≡◌, refl, ◌∙◌, Text, some, none, text_eq, false,
  u64, arith, text_eq_iff,
}
use multi_constraint_iot_edg.Common.Dict.{lookup, adjust, lookup-adjust_self, lookup-adjust_other}
use multi_constraint_iot_edg.Mqtt.{
  arrive_at, owner_after, Paho, MqttClient, Clients, register_message_callback, message_arrived,
  on_message_arrived, call_back, has_connection,
}

module _ {C J S : Type 0} (paho : Paho C J) where
  -- A client after the registration of a callback.
  abbrev registered : (Text → J → S → S) → MqttClient C J S → MqttClient C J S
  registered f m = record m {
    message_callback = some f;
    calls_adapter = has_connection m.client || m.calls_adapter;
  }

  handed :
      (f : Text → J → S → S) (topic : Text) (s : S) (payload : Option J)
      → call_back paho (some f) topic payload s
        ≡ elim payload [ some document ↦ f topic document s | none ↦ s ]
  unfolding call_back
  handed f topic s none = refl
  handed f topic s (some document) = refl

  -- A message at a connection that calls the adapter arrives at the adapter's client.
  arrives :
      (name via topic payload : Text) (w : Clients C J S) (a v : MqttClient C J S) (s : S)
      → w.adapter_owner ≡ some name
      → lookup name w.clients ≡ some a
      → lookup via w.clients ≡ some v
      → (has_connection v.client && v.calls_adapter) ≡ true
      → message_arrived paho via topic payload w s ≡ (
          let (a', s') = on_message_arrived paho topic payload a s in
          (record w { clients = adjust name (λ old. a') w.clients }, s'))
  unfolding message_arrived arrive_at
  arrives name via topic payload w a v s owned at_name at_via calls =
      rw at_via (rw calls (rw owned (rw at_name refl)))

  -- After two clients have registered their callbacks in turn, a message that arrives at the connection of
  -- either is delivered to the first: it is counted there and given to the first client's callback, if it
  -- is JSON, and the second client does not see it. Both clients have connections and different names, and
  -- no client has registered a callback before.
  pub message_arrived-first :
      (first second via topic payload : Text) (f g : Text → J → S → S) (w : Clients C J S)
      (a b : MqttClient C J S) (ca cb : C) (s : S)
      → w.adapter_owner ≡ none
      → lookup first w.clients ≡ some a
      → lookup second w.clients ≡ some b
      → a.client ≡ some ca
      → b.client ≡ some cb
      → text_eq first second ≡ false
      → (via ≡ first) ⊎ (via ≡ second)
      → let (w', s') =
          message_arrived paho via topic payload
            (register_message_callback second g (register_message_callback first f w))
            s in
        (lookup first w'.clients
          ≡ some (record a {
            message_callback = some f;
            calls_adapter = true;
            messages_received = u64 (a.messages_received + 1);
          }))
        × (lookup second w'.clients
            ≡ some (record b { message_callback = some g; calls_adapter = true }))
        × (s' ≡ elim (paho.parse payload) [ some document ↦ f topic document s | none ↦ s ])
  unfolding message_arrived register_message_callback on_message_arrived arrive_at owner_after
      call_back
  message_arrived-first first second via topic payload f g w a b ca cb s none_yet at_a at_b has_a
        has_b differ either =
      let differ' : text_eq second first ≡ false =
        ground (arith, text_eq_iff first second, text_eq_iff second first) in
      let fa = registered f in
      let fb = registered g in
      let at_a2 : lookup first (adjust second fb (adjust first fa w.clients)) ≡ some (fa a) =
        lookup-adjust_other second first fb _ differ'
        ∙ lookup-adjust_self first fa w.clients a at_a in
      let at_b1 : lookup second (adjust first fa w.clients) ≡ some b =
        lookup-adjust_other first second fa w.clients differ ∙ at_b in
      let at_b2 : lookup second (adjust second fb (adjust first fa w.clients)) ≡ some (fb b) =
        lookup-adjust_self second fb _ b at_b1 in
      let w2 = register_message_callback second g (register_message_callback first f w) in
      let owned : w2.adapter_owner ≡ some first =
        rw (at_a, at_b1, none_yet) (rw has_a (rw has_b refl)) in
      let calls_a : (has_connection (fa a).client && (fa a).calls_adapter) ≡ true = rw has_a refl in
      let calls_b : (has_connection (fb b).client && (fb b).calls_adapter) ≡ true = rw has_b refl in
      let delivered : message_arrived paho via topic payload w2 s ≡ (
          let (a', s') = on_message_arrived paho topic payload (fa a) s in
          (record w2 { clients = adjust first (λ old. a') w2.clients }, s')) =
        elim either [
          | inl e ↦
              arrives first via topic payload w2 (fa a) (fa a) s owned at_a2 (rw e at_a2) calls_a
          | inr e ↦
              arrives first via topic payload w2 (fa a) (fb b) s owned at_a2 (rw e at_b2) calls_b
        ] in
      rw delivered (
        lookup-adjust_self first _ _ _ at_a2 ∙ rw has_a refl,
        (lookup-adjust_other first second _ _ differ ∙ at_b2) ∙ rw has_b refl,
        handed f topic s (paho.parse payload),
      )
