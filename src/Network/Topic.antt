-- ===== src/Network/Topic.antt =====
-- The topics of gossip, of network/src/topics.rs, and how network/src/behaviour.rs reads a message by
-- them. A text is its bytes.
use ori.Base.{ℕ, ◌≡◌, refl, false, ◌&&◌, List, [], ◌∷◌, ◌++◌, ◌==◌, if◌then◌else◌, has, arith}
use ori.Types.Hash.{Bytes, same_bytes}
use ori.Network.Message.{PubsubMessage, block_message, transaction_message, unknown_message}

-- "map", "bin", "block", "transaction" and "shard"
abbrev pub topic_prefix : Bytes
topic_prefix = 109 ∷ 97 ∷ 112 ∷ []

abbrev pub topic_encoding_postfix : Bytes
topic_encoding_postfix = 98 ∷ 105 ∷ 110 ∷ []

abbrev pub map_block_topic : Bytes
map_block_topic = 98 ∷ 108 ∷ 111 ∷ 99 ∷ 107 ∷ []

abbrev pub map_transaction_topic : Bytes
map_transaction_topic = 116 ∷ 114 ∷ 97 ∷ 110 ∷ 115 ∷ 97 ∷ 99 ∷ 116 ∷ 105 ∷ 111 ∷ 110 ∷ []

abbrev pub shard_topic_prefix : Bytes
shard_topic_prefix = 115 ∷ 104 ∷ 97 ∷ 114 ∷ 100 ∷ []

pub data GossipTopic : Type 0 where
  map_block transactions shard : GossipTopic
  unknown_topic : Bytes → GossipTopic

abbrev slash : ℕ
slash = 47

-- `split` at a character
prepend : ℕ → List Bytes → List Bytes
prepend b [] = (b ∷ []) ∷ []
prepend b (p ∷ ps) = (b ∷ p) ∷ ps

split : ℕ → Bytes → List Bytes
unfolding prepend
split sep [] = [] ∷ []
split sep (b ∷ bs) = let rest = split sep bs in if b == sep then [] ∷ rest else prepend b rest

-- The topic of the third part of a name
abbrev pub topic_of : Bytes → GossipTopic
topic_of part =
    if same_bytes part map_block_topic
    then map_block
    else if same_bytes part map_transaction_topic
    then transactions
    else unknown_topic part

abbrev pub topic_of_parts : Bytes → List Bytes → GossipTopic
topic_of_parts topic (_ ∷ prefix ∷ part ∷ postfix ∷ []) =
    if same_bytes prefix topic_prefix && same_bytes postfix topic_encoding_postfix
    then topic_of part
    else unknown_topic topic
topic_of_parts topic _ = unknown_topic topic

-- `From<&str>`
pub from_name : Bytes → GossipTopic
unfolding split
from_name topic = topic_of_parts topic (split slash topic)

pub topic_builder : Bytes → Bytes
topic_builder topic = slash ∷ topic_prefix ++ (slash ∷ topic) ++ (slash ∷ topic_encoding_postfix)

-- `Into<String>`
pub into_name : GossipTopic → Bytes
into_name map_block = topic_builder map_block_topic
into_name transactions = topic_builder map_transaction_topic
into_name shard = topic_builder shard_topic_prefix
into_name (unknown_topic topic) = topic

-- `PubsubMessage::from_topics`: the first topic that is known decides.
abbrev pub message_of : GossipTopic → Bytes → PubsubMessage → PubsubMessage
message_of map_block bytes rest = block_message bytes
message_of transactions bytes rest = transaction_message bytes
message_of shard bytes rest = unknown_message bytes
message_of (unknown_topic _) bytes rest = rest

pub from_topics : List Bytes → Bytes → PubsubMessage
from_topics [] bytes = unknown_message bytes
from_topics (topic ∷ topics) bytes = message_of (from_name topic) bytes (from_topics topics bytes)

pub into_data : PubsubMessage → Bytes
into_data (block_message bytes) = bytes
into_data (transaction_message bytes) = bytes
into_data (unknown_message bytes) = bytes

split-append :
    (sep : ℕ) (xs ys : Bytes)
    → has sep xs ≡ false
    → split sep (xs ++ (sep ∷ ys)) ≡ xs ∷ split sep ys
unfolding split
split-append sep [] ys h = ground arith
split-append sep (x ∷ xs) ys h =
    let other : (x == sep) ≡ false = ground (arith, h) in
    rw (other, split-append sep xs ys (ground (arith, h))) refl

-- A name that is built of a word without a slash is read as the word says: the words for blocks and
-- transactions are known, each other word is unknown.
pub from_name-topic_builder :
    (topic : Bytes) → has slash topic ≡ false → from_name (topic_builder topic) ≡ topic_of topic
unfolding from_name topic_builder split
from_name-topic_builder topic h = rw (split-append slash topic topic_encoding_postfix h) refl

into_data-message_of :
    (g : GossipTopic) (bytes : Bytes) (rest : PubsubMessage)
    → into_data rest ≡ bytes
    → into_data (message_of g bytes rest) ≡ bytes
unfolding into_data
into_data-message_of map_block bytes rest e = refl
into_data-message_of transactions bytes rest e = refl
into_data-message_of shard bytes rest e = refl
into_data-message_of (unknown_topic _) bytes rest e = e

-- Whatever the topics, the data of a message are what they were.
into_data-from_topics :
    (topics : List Bytes) (bytes : Bytes) → into_data (from_topics topics bytes) ≡ bytes
unfolding into_data from_topics
into_data-from_topics [] bytes = refl
into_data-from_topics (topic ∷ topics) bytes =
    into_data-message_of (from_name topic) bytes (from_topics topics bytes)
      (into_data-from_topics topics bytes)
