-- ===== src/Subscriptions/Samples.antt =====
-- Small runs of crates/magna-subscriptions, and the theorems there.
use magna.Base.{Outcome, done, ◌≡◌, ◌↔◌, refl, inl, [], ◌∷◌, some, Bytes, bytes}
use magna.Types.{text}
use magna.Subscriptions.{
  ok, Texts, pk_to_text, from_database, notify_mutation, mutation_channel, Manager, empty_manager,
  new_manager, subscribe, dispatch_notification,
}
use magna.Subscriptions.Sizes.{notify_mutation-pk_to_text}
use magna.Subscriptions.Channels.{
  IsTracked, Reaches, here, then_step, subscribes, reachable-IsTracked,
  dispatch_notification-subscribe,
}

abbrev texts : Texts
texts = record {
  uuid_str = λ u. bytes "uuid";
  debug = λ v. bytes "?";
  json_str = λ entries. done (bytes "{}");
}

abbrev accepts : Bytes → Bytes → Outcome Unit
accepts channel payload = done tt

-- Two tables with one channel.
shared_channel :
    mutation_channel (bytes "a_b") (bytes "c") ≡ mutation_channel (bytes "a") (bytes "b_c")
unfolding mutation_channel
shared_channel = refl

text_accepted : pk_to_text texts (text (bytes "42")) ≡ ok (bytes "42")
unfolding pk_to_text
text_accepted = refl

notify_mutation-pk_to_text_example :
    notify_mutation accepts (bytes "c") (bytes "42")
    ≡ from_database (accepts (bytes "c") (bytes "42"))
notify_mutation-pk_to_text_example =
    notify_mutation-pk_to_text texts accepts (bytes "c") (bytes "42") (text (bytes "42")) []
      (inl text_accepted)

abbrev after_c : Manager
after_c = record { listening = bytes "c" ∷ []; channels = (bytes "c", 0) ∷ []; created = 1 }

connected : new_manager (done tt) ≡ ok empty_manager
unfolding new_manager
connected = refl

after_c-Reaches : Reaches empty_manager after_c
unfolding subscribe
after_c-Reaches = then_step here (subscribes empty_manager (bytes "c") (done tt))

reachable-IsTracked_example : IsTracked after_c
reachable-IsTracked_example =
    reachable-IsTracked (done tt) empty_manager after_c connected after_c-Reaches

second_sender : (subscribe after_c (bytes "d") (done tt)).0 ≡ ok 1
unfolding subscribe
second_sender = refl

dispatch_notification-subscribe_example :
    (dispatch_notification (subscribe after_c (bytes "d") (done tt)).1 (bytes "d") (bytes "42")
      ≡ some (1, record { channel = bytes "d"; pk_text = bytes "42" }))
    ↔ (bytes "d" ≡ bytes "d")
dispatch_notification-subscribe_example =
    dispatch_notification-subscribe after_c (bytes "d") (done tt) 1
      (reachable-IsTracked (done tt) empty_manager after_c connected after_c-Reaches) second_sender
      (bytes "d") (bytes "42")
