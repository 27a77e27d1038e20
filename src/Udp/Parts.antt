-- ===== src/Udp/Parts.antt =====
-- daemon/src/services/PublicUdpSocketServer.ts: `_createUdpMessageParts` cuts a message into parts.
-- The node's signature, the fresh message id and the protocol version are arguments.
use kachery_p2p.Base.{
  ℕ, zero, suc, ◌+◌, ◌-◌, ◌≤◌, ◌<◌, ◌≡◌, refl, ◌∙◌, ap, sym, Bool, List, [], ◌∷◌, ◌++◌, Option,
  some, String, arith, length, take, drop, get_elem?, length-take, take-append-drop,
  drop_of_length-le, ltb, if◌then◌else◌, All,
}
use kachery_p2p.Stream.{Buffer}
use kachery_p2p.Udp.{
  udp_packet_size, udp_message_header_size, UdpMessageType, Address, UdpBody, UdpMessagePart,
}

-- `Buffer.concat`
abbrev pub concat : List Buffer → Buffer
concat [] = []
concat (b ∷ bs) = b ++ concat bs

-- The loop; `i` grows by `part_size` in each round.
unfoldable pub cut : ℕ → (part_size i : ℕ) → Buffer → List Buffer
cut zero part_size i message_data = []
cut (suc fuel) part_size i message_data =
    let rest = cut fuel part_size (i + part_size) message_data in
    if ltb i (length message_data) then take part_size (drop i message_data) ∷ rest else []

-- At least one part, so that the header gets sent.
abbrev pub at_least_one : List Buffer → List Buffer
at_least_one [] = [] ∷ []
at_least_one (b ∷ bs) = b ∷ bs

abbrev pub part_size : ℕ
part_size = udp_packet_size - udp_message_header_size

unfoldable pub buffers_of : Buffer → List Buffer
buffers_of message_data = at_least_one (cut (length message_data) part_size 0 message_data)

-- What the sender puts in each header.
pub record Envelope : Type 0 where
  pub udp_message_id : String
  pub protocol_version : String
  pub node_id : String
  pub to_address : Option Address
  pub udp_message_type : UdpMessageType
  pub meta_data : String
  pub payload_is_json : Bool

abbrev pub body_of : Envelope → (ii num_parts : ℕ) → UdpBody
body_of env ii n = record {
  udp_message_id = env.udp_message_id;
  protocol_version = env.protocol_version;
  from_node_id = env.node_id;
  to_address = env.to_address;
  udp_message_type = env.udp_message_type;
  meta_data = env.meta_data;
  part_index = ii;
  num_parts = n;
  payload_is_json = env.payload_is_json;
}

module _ (sign : UdpBody → String) where
  abbrev pub part_of : Envelope → (ii num_parts : ℕ) → Buffer → UdpMessagePart
  part_of env ii n b = record {
    header = record { body = body_of env ii n; signature = sign (body_of env ii n) };
    data_buffer = b;
  }

  -- `buffers.forEach`
  unfoldable pub number_parts : Envelope → (ii num_parts : ℕ) → List Buffer → List UdpMessagePart
  number_parts env ii n [] = []
  number_parts env ii n (b ∷ bs) = part_of env ii n b ∷ number_parts env (suc ii) n bs

  unfoldable pub create_udp_message_parts : Envelope → Buffer → List UdpMessagePart
  create_udp_message_parts env message_data =
      let buffers = buffers_of message_data in number_parts env 0 (length buffers) buffers

drop-drop : (m n : ℕ) (xs : Buffer) → drop m (drop n xs) ≡ drop (n + m) xs
drop-drop m zero xs = ground arith
drop-drop m (suc n) [] =
    drop_of_length-le m [] (omega arith) ∙ sym (drop_of_length-le (suc n + m) [] (omega arith))
drop-drop m (suc n) (x ∷ xs) =
    let e : suc n + m ≡ suc (n + m) = omega arith in rw e (drop-drop m n xs)

-- With enough rounds the pieces make up what is left of the message.
concat-cut :
    (fuel size i : ℕ) (data_bytes : Buffer)
    → 0 < size
    → length data_bytes ≤ i + fuel
    → concat (cut fuel size i data_bytes) ≡ drop i data_bytes
unfolding cut
concat-cut zero size i bytes pos enough = ground (arith, drop_of_length-le i bytes)
concat-cut (suc fuel) size i bytes pos enough = ground (
  arith,
  concat-cut fuel size (i + size) bytes pos,
  drop-drop size i bytes,
  take-append-drop size (drop i bytes),
  drop_of_length-le i bytes,
)

cut-bounds : (fuel size i : ℕ) (bytes : Buffer) → All (λ b. length b ≤ size) (cut fuel size i bytes)
unfolding cut
cut-bounds zero size i bytes = tt
cut-bounds (suc fuel) size i bytes =
    ground (arith, cut-bounds fuel size (i + size) bytes, length-take size (drop i bytes))

concat-at_least_one : (bs : List Buffer) → concat (at_least_one bs) ≡ concat bs
concat-at_least_one [] = refl
concat-at_least_one (b ∷ bs) = refl

at_least_one-bounds :
    (size : ℕ) (bs : List Buffer)
    → All (λ b. length b ≤ size) bs
    → All (λ b. length b ≤ size) (at_least_one bs) × (0 < length (at_least_one bs))
at_least_one-bounds size [] h = ((omega arith, tt), omega arith)
at_least_one-bounds size (b ∷ bs) h = (h, omega arith)

-- The buffers of a message are at least one, none is longer than a packet without its header, and
-- together they are the message.
pub buffers_of_lem :
    (bytes : Buffer)
    → (concat (buffers_of bytes) ≡ bytes)
      × (0 < length (buffers_of bytes))
      × All (λ b. length b ≤ part_size) (buffers_of bytes)
unfolding buffers_of
buffers_of_lem bytes =
    let pieces = cut (length bytes) part_size 0 bytes in
    let bounds =
      at_least_one-bounds part_size pieces (cut-bounds (length bytes) part_size 0 bytes) in
    (
      concat-at_least_one pieces
          ∙ concat-cut (length bytes) part_size 0 bytes (omega arith) (omega arith),
      bounds.1,
      bounds.0,
    )

module _ (sign : UdpBody → String) (env : Envelope) where
  get_elem?-number_parts :
      (ii n i : ℕ) (bs : List Buffer) (b : Buffer)
      → get_elem? bs i ≡ some b
      → get_elem? (number_parts sign env ii n bs) i ≡ some (part_of sign env (ii + i) n b)
  unfolding number_parts
  get_elem?-number_parts ii n i [] b h = cc
  get_elem?-number_parts ii n zero (c ∷ bs) b h = ground arith
  get_elem?-number_parts ii n (suc i) (c ∷ bs) b h =
      ground (arith, get_elem?-number_parts (suc ii) n i bs b)

  length-number_parts :
      (ii n : ℕ) (bs : List Buffer) → length (number_parts sign env ii n bs) ≡ length bs
  unfolding number_parts
  length-number_parts ii n [] = refl
  length-number_parts ii n (b ∷ bs) = ap suc (length-number_parts (suc ii) n bs)

  -- The parts of a message are as many as its buffers, and part `i` carries buffer `i` under its index
  -- and that number, with the signature of its own header.
  pub create_udp_message_parts_lem :
      (bytes : Buffer) (i : ℕ) (b : Buffer)
      → get_elem? (buffers_of bytes) i ≡ some b
      → (length (create_udp_message_parts sign env bytes) ≡ length (buffers_of bytes))
        × (get_elem? (create_udp_message_parts sign env bytes) i
            ≡ some (part_of sign env i (length (buffers_of bytes)) b))
  unfolding create_udp_message_parts
  create_udp_message_parts_lem bytes i b h = (
    length-number_parts 0 _ (buffers_of bytes),
    ground (arith, get_elem?-number_parts 0 (length (buffers_of bytes)) i (buffers_of bytes) b h),
  )
