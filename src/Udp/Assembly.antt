-- ===== src/Udp/Assembly.antt =====
-- UdpMessagePartManager.addMessagePart: the parts of one message, in any order.
use kachery_p2p.Base.{
  ℕ, ◌+◌, ◌≤◌, ◌<◌, ◌≡◌, ◌⊎◌, inl, inr, true, false, List, [], ◌∷◌, ◌++◌, map, Option, none, some,
  String, arith, length, get_elem?, get_elem?-lt, append-nil, nat_eq, nat_beq_iff, All,
}
use kachery_p2p.Base.Maps
use kachery_p2p.Base.Maps.{get-set, get-delete, IsMap, set-IsMap, delete-IsMap}
use kachery_p2p.GarbageMap
use kachery_p2p.GarbageMap.{GarbageMap, Entry, check_garbage_collection}
use kachery_p2p.Udp.{Address}
use kachery_p2p.Udp.PartManager.{
  part_id_eq, MessagePartData, UdpMessagePartManager, collect_parts, complete_call,
  add_message_part,
}
use kachery_p2p.Udp.Held.{
  elem, PartMap, key, Holds, set-Holds, collect-Holds, collect_all, collect_missing, delete-none,
}

module _ (id : String) (parts : List MessagePartData) (start timeout : ℕ) where
  -- A packet of the message: when and from where a part arrives, and its index.
  pub record Arrival : Type 0 where
    pub now : ℕ
    pub remote_address : Option Address
    pub part_index : ℕ
    pub part : MessagePartData

  abbrev pub add : UdpMessagePartManager → Arrival → UdpMessagePartManager
  add m a =
      add_message_part a.now m a.remote_address id a.part_index (length parts) a.part.header
        a.part.buffer

  unfoldable pub add_all : UdpMessagePartManager → List Arrival → UdpMessagePartManager
  add_all m [] = m
  add_all m (a ∷ arrivals) = add_all (add m a) arrivals

  -- The packet comes in time and carries the part of its index.
  pub record IsGenuine (a : Arrival) : Type 0 where
    pub late : start ≤ a.now
    pub soon : a.now ≤ start + timeout
    pub part : get_elem? parts a.part_index ≡ some a.part

  stored : UdpMessagePartManager → Arrival → PartMap
  stored m a = GarbageMap.set a.now m.message_parts (key id parts start timeout a.part_index) a.part

  add-incomplete :
      (arrived : List ℕ) (m : UdpMessagePartManager) (a : Arrival) (j : ℕ)
      → IsGenuine a
      → Holds id parts start timeout arrived m.message_parts
      → j < length parts
      → elem j (a.part_index ∷ arrived) ≡ false
      → Holds id parts start timeout (a.part_index ∷ arrived) (add m a).message_parts
        × ((add m a).calls ≡ m.calls)
        × ((add m a).on_message_complete_callbacks ≡ m.on_message_complete_callbacks)
  unfolding add_message_part stored
  add-incomplete arrived m a j genuine h lt missing =
      let g = stored m a in
      let s =
        set-Holds id parts start timeout a.now arrived m.message_parts a.part_index a.part
          genuine.late genuine.soon genuine.part h in
      let c =
        collect-Holds id parts start timeout a.now (a.part_index ∷ arrived) (length parts) 0 g
          genuine.soon s in
      let r =
        collect_missing id parts start timeout a.now (a.part_index ∷ arrived) (length parts) 0 j g
          genuine.soon (omega arith) (omega arith) s missing in
      ground (arith, c, r, append-nil m.calls)

  -- What a complete message leaves: the callbacks called, and none of its parts.
  pub record Completes (m m' : UdpMessagePartManager) : Type 0 where
    pub called : m'.calls ≡ m.calls ++ map (complete_call parts) m.on_message_complete_callbacks
    pub cleaned :
        (j : ℕ)
        → j < length parts
        → Maps.get (key id parts start timeout j) m'.message_parts.entries ≡ none

  add-Completes :
      (arrived : List ℕ) (m : UdpMessagePartManager) (a : Arrival)
      → IsGenuine a
      → Holds id parts start timeout arrived m.message_parts
      → ((j : ℕ) → j < length parts → elem j (a.part_index ∷ arrived) ≡ true)
      → Completes m (add m a)
  unfolding add_message_part stored
  add-Completes arrived m a genuine h every =
      let g = stored m a in
      let s =
        set-Holds id parts start timeout a.now arrived m.message_parts a.part_index a.part
          genuine.late genuine.soon genuine.part h in
      let c =
        collect-Holds id parts start timeout a.now (a.part_index ∷ arrived) (length parts) 0 g
          genuine.soon s in
      let r =
        collect_all id parts start timeout a.now (a.part_index ∷ arrived) (length parts) 0 g
          genuine.soon (omega arith) s every in
      record {
        called = ground (arith, r);
        cleaned = λ j lt. ground (
          arith,
          r,
          delete-none id parts start timeout a.now (length parts) 0 j
              (collect_parts a.now id (length parts) (length parts) 0 g).0 c.distinct
              (inr (omega arith, omega arith)),
        );
      }

  -- The indices that arrive differ from one another and from those that have arrived.
  abbrev pub IsApart : List ℕ → List Arrival → Type 0
  IsApart arrived [] = Unit {0}
  IsApart arrived (a ∷ arrivals) =
      (elem a.part_index arrived ≡ false) × IsApart (a.part_index ∷ arrived) arrivals

  abbrev pub Arrives : ℕ → List Arrival → Type 0
  Arrives j [] = ⊥
  Arrives j (a ∷ arrivals) = (a.part_index ≡ j) ⊎ Arrives j arrivals

  now_arrived :
      (a : Arrival) (arrivals : List Arrival) (arrived : List ℕ) (j : ℕ)
      → (elem j arrived ≡ true) ⊎ Arrives j (a ∷ arrivals)
      → (elem j (a.part_index ∷ arrived) ≡ true) ⊎ Arrives j arrivals
  now_arrived a arrivals arrived j (inl h) = inl (ground arith)
  now_arrived a arrivals arrived j (inr (inl e)) = inl (ground (arith, nat_beq_iff a.part_index j))
  now_arrived a arrivals arrived j (inr (inr h)) = inr h

  add_all-Completes_from :
      (arrivals : List Arrival) (a : Arrival) (arrived : List ℕ) (m : UdpMessagePartManager)
      → Holds id parts start timeout arrived m.message_parts
      → All IsGenuine (a ∷ arrivals)
      → IsApart arrived (a ∷ arrivals)
      → ((j : ℕ) → j < length parts → (elem j arrived ≡ true) ⊎ Arrives j (a ∷ arrivals))
      → Completes m (add_all m (a ∷ arrivals))
  unfolding add_all
  add_all-Completes_from [] a arrived m h genuine apart every =
      add-Completes arrived m a genuine.0 h (λ j lt. ground (arith, every j lt))
  add_all-Completes_from (b ∷ arrivals) a arrived m h genuine apart every =
      let lt = get_elem?-lt parts b.part_index b.part genuine.1.0.part in
      let (h', calls, callbacks) =
        add-incomplete arrived m a b.part_index genuine.0 h lt apart.1.0 in
      let rest =
        add_all-Completes_from arrivals b (a.part_index ∷ arrived) (add m a) h' genuine.1 apart.1
          (λ j l. now_arrived a (b ∷ arrivals) arrived j (every j l)) in
      record { called = ground (arith, rest.called); cleaned = rest.cleaned }

  -- Reassembly of a message. Its parts arrive in any order, each exactly once and all within the
  -- lifetime of a part, at a manager that may hold parts of other messages but none of this one. Then
  -- each callback has been called exactly once, with the header of the first part and with the
  -- concatenation of the parts in the order of their indices, and no part of the message is kept.
  pub add_all-Completes :
      (m : UdpMessagePartManager) (arrivals : List Arrival)
      → 0 < length parts
      → Holds id parts start timeout [] m.message_parts
      → All IsGenuine arrivals
      → IsApart [] arrivals
      → ((j : ℕ) → j < length parts → Arrives j arrivals)
      → Completes m (add_all m arrivals)
  add_all-Completes m [] pos h genuine apart every = absurd (every 0 pos)
  add_all-Completes m (a ∷ arrivals) pos h genuine apart every =
      add_all-Completes_from arrivals a [] m h genuine apart (λ j lt. inr (every j lt))
