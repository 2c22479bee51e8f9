-- ===== src/Service.antt =====
-- lib/dht/dht.cpp and messages.cpp: the distributed hash table above a node of the overlay. The Arbore
-- above it (lib/files/arbore.cpp) only prints what it gets.
pub mod Publish
pub mod Runs
pub mod Live
use arbore_experiment.Base.{
  ℕ, zero, suc, Bool, true, false, Option, none, some, List, [], ◌∷◌, ◌==◌, if◌then◌else◌,
}
use arbore_experiment.Key.{Key, zero_key}
use arbore_experiment.Netutil.{Str}
use arbore_experiment.Chunk.{Chunk}
use arbore_experiment.Host.{Host, key_of}
use arbore_experiment.Packet.{
  Packet, PacketType, Arg, key_arg, data_arg, chunk_arg, Handler, handler_chimera, handler_dht,
  handler_arbore, new_packet, set_arg,
}
use arbore_experiment.Dht.{Data, new_string, new_key}
use arbore_experiment.Dht.Storage.{Storage, has_key, get_info, add_info, remove_info}
use arbore_experiment.Dht.Storage
use arbore_experiment.Step.{Step, returns, null_pointer, assertion, ◌>>=◌, asserted}
use arbore_experiment.Messages.{
  publish_type, repeat_publish_type, unpublish_type, repeat_unpublish_type, get_type, get_ack_type,
  get_nack_type, chunk_send_type, arg_at, as_key, as_data, as_chunk,
}
use arbore_experiment.Chimera.{System, Node, now, closest_to, send, send_to_neighbours, route}
use arbore_experiment.Chimera.Handlers

-- A DHT. The Arbore may be null.
pub record Service : Type 0 where
  pub node : Node
  pub storage : Storage
  pub me : Key
  pub has_arbore : Bool

-- REDONDANCY.
abbrev pub redondancy : ℕ
redondancy = 1

-- A call of the storage: whether it returned, as opposed to WrongDataType. UnknowKey is not caught.
unfoldable pub stored : Service → Storage.Outcome → Step (Service × Bool)
stored s (Storage.done storage) = returns (record s { storage = storage }, true)
stored s (Storage.wrong_data_type storage) = returns (record s { storage = storage }, false)
stored s (Storage.unknown_key storage) = assertion

unfoldable pub with_node : Service → Node → Service
with_node s n = record s { node = n }

-- A packet with a key, and with a value.
unfoldable pub key_packet : PacketType → Key → Key → Key → Packet
key_packet type src dst k = record (new_packet type src dst) { args = set_arg 0 (key_arg k) [] }

unfoldable pub data_packet : PacketType → Key → Key → Key → Data → Packet
data_packet type src dst k d = record (new_packet type src dst) {
  args = set_arg 1 (data_arg d) (set_arg 0 (key_arg k) []);
}

module _ (sys : System) (tries : ℕ) where
  -- The copies that go to the neighbours on both sides.
  unfoldable pub replicate : PacketType → Key → Data → Service → Step Service
  unfolding with_node
  replicate type k d s = do
    (n, success) ← send_to_neighbours sys redondancy (data_packet type s.me zero_key k d) s.node
    returns (with_node s n)

  -- What Publish and Unpublish do behind the storage: the packet goes to the owner, or the copies to
  -- the neighbours of this one.
  unfoldable pub announce : PacketType → PacketType → Key → Data → Service → Step Service
  unfolding with_node
  announce type repeat_type k d s = do
    (n, routed) ← route sys tries (data_packet type s.me k k d) s.node
    if routed then returns (with_node s n) else replicate repeat_type k d (with_node s n)

  unfoldable pub if_stored : (Service → Step Service) → Service × Bool → Step Service
  if_stored next (s, false) = returns s
  if_stored next (s, true) = next s

  -- Publish, of a Data, of a string and of a key.
  unfoldable pub publish : Key → Data → Service → Step Service
  unfolding if_stored
  publish k d s =
      stored s (add_info (now sys s.node) s.storage k d)
      >>= if_stored (announce publish_type repeat_publish_type k d)

  unfoldable pub publish_string : Key → Str → Service → Step Service
  publish_string k name s = publish k (new_string (now sys s.node) name) s

  unfoldable pub publish_key : Key → Key → Service → Step Service
  publish_key k key s = publish k (new_key (now sys s.node) key) s

  -- Unpublish.
  unfoldable pub unpublish : Key → Data → Service → Step Service
  unfolding if_stored
  unpublish k d s =
      stored s (remove_info s.storage k d)
      >>= if_stored (announce unpublish_type repeat_unpublish_type k d)

  unfoldable pub unpublish_string : Key → Str → Service → Step Service
  unpublish_string k name s = unpublish k (new_string (now sys s.node) name) s

  unfoldable pub unpublish_key : Key → Key → Service → Step Service
  unpublish_key k key s = unpublish k (new_key (now sys s.node) key) s

  -- RequestData.
  unfoldable pub request_data : Key → Service → Step (Service × Bool)
  unfolding with_node
  request_data k s =
      if has_key s.storage k
      then returns (s, false)
      else if closest_to k s.node
      then returns (s, false)
      else (route sys tries (key_packet get_type s.me k k) s.node >>= λ r.
          returns (with_node s (r.0), true))

  -- PUBLISH and UNPUBLISH.
  unfoldable pub handle_publish : Packet → Service → Step Service
  handle_publish p s = do
    k ← asserted (as_key (arg_at p.args 0))
    d ← asserted (as_data (arg_at p.args 1))
    r ← stored s (add_info (now sys s.node) s.storage k d)
    if_stored (replicate repeat_publish_type k d) r

  unfoldable pub handle_unpublish : Packet → Service → Step Service
  handle_unpublish p s = do
    k ← asserted (as_key (arg_at p.args 0))
    d ← asserted (as_data (arg_at p.args 1))
    r ← stored s (remove_info s.storage k d)
    if_stored (replicate repeat_unpublish_type k d) r

  -- REPEAT_P and REPEAT_U.
  unfoldable pub handle_repeat_publish : Packet → Service → Step Service
  handle_repeat_publish p s = do
    k ← asserted (as_key (arg_at p.args 0))
    d ← asserted (as_data (arg_at p.args 1))
    (s', kept) ← stored s (add_info (now sys s.node) s.storage k d)
    returns s'

  unfoldable pub handle_repeat_unpublish : Packet → Service → Step Service
  handle_repeat_unpublish p s = do
    k ← asserted (as_key (arg_at p.args 0))
    d ← asserted (as_data (arg_at p.args 1))
    (s', kept) ← stored s (remove_info s.storage k d)
    returns s'

  -- The answer to a GET: the value, or that there is none; it goes to the host that the packet came
  -- from, which for a packet that was passed on is the last hop.
  unfoldable pub answer : Host → Packet → Service → Step Service
  unfolding with_node
  answer h p s = do (n, sent) ← send sys h p s.node; returns (with_node s n)

  unfoldable pub answer_get : Host → Packet → Key → Service → Option Data → Step Service
  unfolding with_node
  answer_get h p k s (some d) =
      answer h (data_packet get_ack_type s.me (key_of s.node.world.heap h) k d) s
  answer_get h p k s none =
      if closest_to k s.node
      then answer h (key_packet get_nack_type s.me (key_of s.node.world.heap h) k) s
      else (route sys tries p s.node >>= λ r. returns (with_node s (r.0)))

  unfoldable pub handle_get : Host → Packet → Service → Step Service
  unfolding answer_get
  handle_get h p s = do
    k ← asserted (as_key (arg_at p.args 0))
    answer_get h p k s (get_info s.storage k)

  -- GET_ACK: the value is stored, and handed to the Arbore without a test for null.
  unfoldable pub hand_over : Service × Bool → Step Service
  hand_over (s, false) = returns s
  hand_over (s, true) = if s.has_arbore then returns s else null_pointer

  unfoldable pub handle_get_ack : Packet → Service → Step Service
  unfolding hand_over
  handle_get_ack p s = do
    k ← asserted (as_key (arg_at p.args 0))
    d ← asserted (as_data (arg_at p.args 1))
    r ← stored s (add_info (now sys s.node) s.storage k d)
    hand_over r

  unfoldable pub handle_get_nack : Packet → Service → Step Service
  handle_get_nack p s = do k ← asserted (as_key (arg_at p.args 0)); returns s

  -- The handler of the Arbore, which prints a chunk.
  unfoldable pub handle_chunk_send : Packet → Service → Step Service
  handle_chunk_send p s = do c ← asserted (as_chunk (arg_at p.args 0)); returns s

  -- The call of the virtual Handle of a DHTMessage.
  unfoldable pub handle : Host → Packet → Service → Step Service
  handle h p s =
      let number = p.type.number in
      if number == publish_type.number
      then handle_publish p s
      else if number == repeat_publish_type.number
      then handle_repeat_publish p s
      else if number == unpublish_type.number
      then handle_unpublish p s
      else if number == repeat_unpublish_type.number
      then handle_repeat_unpublish p s
      else if number == get_type.number
      then handle_get h p s
      else if number == get_ack_type.number
      then handle_get_ack p s
      else if number == get_nack_type.number
      then handle_get_nack p s
      else null_pointer

  -- DHT::HandleMessage, and Arbore::HandleMessage behind it.
  unfoldable pub dispatch : Host → Packet → Service → Handler → Step Service
  dispatch h p s handler_dht = handle h p s
  dispatch h p s handler_chimera = returns s
  dispatch h p s handler_arbore = if s.has_arbore then handle_chunk_send p s else returns s

  unfoldable pub chained : Host → Packet → Service → Node × Bool → Step Service
  unfolding with_node dispatch
  chained h p s (n, up) =
      if up then dispatch h p (with_node s n) p.type.handler else returns (with_node s n)

  -- What a packet that the network hands over does: Chimera::HandleMessage, and the layers above it.
  unfoldable pub handle_message : Host → Packet → Service → Step Service
  unfolding chained
  handle_message h p s = Handlers.handle_message sys tries p s.node >>= chained h p s
