-- ===== src/Sample/Subscription.antt =====
-- A topic, seen from one channel: whether it has the channel.
use bimpc.Common.{
  refl, Bool, true, false, [], ◌∷◌, ◌++◌, length, ltb, ltb-true, ltb-false, if◌then◌else◌,
}
use bimpc.Chat.Server.{Item, Channel, capacity, Topic, TopicLaws}

abbrev offered : Item → Channel → Bool × Channel
offered m ch =
    if ltb (length ch.queue) capacity
    then (true, record ch { queue = ch.queue ++ (m ∷ []) })
    else (false, record ch { is_open = false })

abbrev pub sample_topic : Topic Bool
sample_topic = record {
  register = λ t. true;
  unregister = λ t ch. (false, if t then record ch { is_open = false } else ch);
  broadcast = λ m t ch. if t then offered m ch else (false, ch);
}

abbrev pub sample_topic-TopicLaws : TopicLaws sample_topic
sample_topic-TopicLaws = record {
  has = λ t. t;
  register_has = λ t. refl;
  unregister_closes = λ t ch e. rw e (refl, refl);
  unregister_again = λ t ch e. rw e (refl, refl);
  broadcast_room = λ m t ch e less. rw (e, ltb-true (length ch.queue) capacity less) (refl, refl);
  broadcast_full = λ m t ch e more. rw (e, ltb-false (length ch.queue) capacity more) (refl, refl);
  broadcast_elsewhere = λ m t ch e. rw e (refl, refl);
}
