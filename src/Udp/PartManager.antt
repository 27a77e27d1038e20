-- ===== src/Udp/PartManager.antt =====
-- daemon/src/udp/UdpMessagePartManager.ts: the parts of a message are put together.
-- The key of a part is the text `id:index:number`; an id is ten letters (isUdpMessageId), so the text
-- stands for the three values. `calls` records the calls of the callbacks, oldest first.
use kachery_p2p.Base.{
  ℕ, zero, suc, ◌≡◌, ◌↔◌, Bool, true, ◌&&◌, List, [], ◌∷◌, ◌++◌, ◌*◌, map, Option, none, some,
  String, arith, head?, Eq, nat_eq, string_eq, ◌==◌,
}
use text.Mathlib.TextEquality.{eq_iff}
use kachery_p2p.GarbageMap
use kachery_p2p.GarbageMap.{GarbageMap}
use kachery_p2p.Stream.{Buffer}
use kachery_p2p.Udp.{Address, UdpHeader}
use kachery_p2p.Udp.Parts.{concat}

pub record PartId : Type 0 where
  pub udp_message_id : String
  pub part_index : ℕ
  pub num_parts : ℕ

abbrev pub part_id_beq : PartId → PartId → Bool
part_id_beq a b =
    a.udp_message_id == b.udp_message_id
    && a.part_index == b.part_index
    && a.num_parts == b.num_parts

pub part_id_beq_iff : (a b : PartId) → (part_id_beq a b ≡ true) ↔ (a ≡ b)
part_id_beq_iff a b = ground (arith, eq_iff a.udp_message_id b.udp_message_id)

instance abbrev pub part_id_eq : Eq PartId
part_id_eq = record { beq = part_id_beq; beq_iff = part_id_beq_iff }

pub record MessagePartData : Type 0 where
  pub header : UdpHeader
  pub buffer : Buffer

pub record Call : Type 0 where
  pub callback : ℕ
  pub header : Option UdpHeader
  pub full_buffer : Buffer

pub record UdpMessagePartManager : Type 0 where
  pub message_parts : GarbageMap PartId MessagePartData
  pub remote_addresses_by_node_id : GarbageMap String Address
  pub on_message_complete_callbacks : List ℕ
  pub calls : List Call

abbrev pub part_lifetime_msec : ℕ
part_lifetime_msec = 30 * 60 * 1000

unfoldable pub new_part_manager : ℕ → UdpMessagePartManager
new_part_manager now = record {
  message_parts = GarbageMap.new_garbage_map now (some part_lifetime_msec);
  remote_addresses_by_node_id = GarbageMap.new_garbage_map now (some part_lifetime_msec);
  on_message_complete_callbacks = [];
  calls = [];
}

-- The first loop: the parts from `i` on, as long as they are there.
unfoldable pub collect_parts :
    (now : ℕ) (udp_message_id : String) (num_parts : ℕ)
    → (remaining i : ℕ) → GarbageMap PartId MessagePartData
    → GarbageMap PartId MessagePartData × Option (List MessagePartData)
collect_parts now id n zero i g = (g, some [])
collect_parts now id n (suc remaining) i g =
    let r = GarbageMap.get now g (record { udp_message_id = id; part_index = i; num_parts = n }) in
    let rest = collect_parts now id n remaining (suc i) r.0 in
    elim r.1 [
      | none ↦ (r.0, none)
      | some d ↦ (rest.0, elim rest.1 [ none ↦ none | some ds ↦ some (d ∷ ds) ])
    ]

-- The second loop, once the message is complete.
unfoldable pub delete_parts :
    (now : ℕ) (udp_message_id : String) (num_parts : ℕ)
    → (remaining i : ℕ) → GarbageMap PartId MessagePartData
    → GarbageMap PartId MessagePartData
delete_parts now id n zero i g = g
delete_parts now id n (suc remaining) i g =
    delete_parts now id n remaining (suc i)
      (GarbageMap.delete now g (record { udp_message_id = id; part_index = i; num_parts = n }))

abbrev pub complete_call : List MessagePartData → ℕ → Call
complete_call ds cb = record {
  callback = cb;
  header = head? (map (λ d. d.header) ds);
  full_buffer = concat (map (λ d. d.buffer) ds);
}

-- The calls of the callbacks, if every part was found.
abbrev pub complete_calls : List ℕ → Option (List MessagePartData) → List Call
complete_calls callbacks none = []
complete_calls callbacks (some ds) = map (complete_call ds) callbacks

unfoldable pub add_message_part :
    (now : ℕ)
    → UdpMessagePartManager
    → Option Address
    → (udp_message_id : String) (part_index num_parts : ℕ) → UdpHeader
    → Buffer
    → UdpMessagePartManager
add_message_part now m remote_address id part_index n header buffer =
    let stored =
      GarbageMap.set now m.message_parts
        (record { udp_message_id = id; part_index = part_index; num_parts = n })
        (record { header = header; buffer = buffer }) in
    let r = collect_parts now id n n 0 stored in
    let completed = record m {
      message_parts = elim r.1 [ none ↦ r.0 | some ds ↦ delete_parts now id n n 0 r.0 ];
      calls = m.calls ++ complete_calls m.on_message_complete_callbacks r.1;
    } in
    elim remote_address [
      | none ↦ completed
      | some address ↦ record completed {
        remote_addresses_by_node_id =
            GarbageMap.set now completed.remote_addresses_by_node_id header.body.from_node_id
              address;
      }
    ]

unfoldable pub on_message_complete : UdpMessagePartManager → ℕ → UdpMessagePartManager
on_message_complete m cb = record m {
  on_message_complete_callbacks = m.on_message_complete_callbacks ++ cb ∷ [];
}

unfoldable pub get_remote_address_for_node_id :
    ℕ → UdpMessagePartManager → String → UdpMessagePartManager × Option Address
get_remote_address_for_node_id now m node_id =
    let r = GarbageMap.get now m.remote_addresses_by_node_id node_id in
    (record m { remote_addresses_by_node_id = r.0 }, r.1)
