-- ===== src/Udp/Held.antt =====
-- UdpMessagePartManager.addMessagePart: which parts of a message the map holds, and what its two
-- loops over the parts find and leave.
use kachery_p2p.Base.{
  ℕ, zero, suc, ◌+◌, ◌≤◌, ◌<◌, ◌≡◌, ◌∙◌, ap, ◌⊎◌, inl, inr, subst, Bool, true, false, List, [], ◌∷◌,
  none, some, String, arith, length, drop, drop_of_length-le, drop-cons, get_elem?, Bool-cases,
  nat_eq, nat_beq_iff, ◌==◌, if◌then◌else◌,
}
use text.Mathlib.TextEquality.{eq_iff}
use native.Mathlib.Decide.{dec_lt}
use kachery_p2p.Base.Maps
use kachery_p2p.Base.Maps.{get-set, get-delete, IsMap, set-IsMap, delete-IsMap}
use kachery_p2p.GarbageMap
use kachery_p2p.GarbageMap.{GarbageMap, Entry, check_garbage_collection}
use kachery_p2p.GarbageMap.Collecting.{check-keeps, check-none, check-IsMap, check-timeout}
use kachery_p2p.GarbageMap.Laws.{delete_keeps_IsMap}
use kachery_p2p.Udp.PartManager.{PartId, part_id_eq, MessagePartData, collect_parts, delete_parts}

abbrev pub elem : ℕ → List ℕ → Bool
elem i [] = false
elem i (j ∷ js) = if j == i then true else elem i js

abbrev pub PartMap : Type 0
PartMap = GarbageMap PartId MessagePartData

module _ (id : String) (parts : List MessagePartData) (start timeout : ℕ) where
  abbrev pub key : ℕ → PartId
  key i = record { udp_message_id = id; part_index = i; num_parts = length parts }

  key_beq : (i j : ℕ) → (key i == key j) ≡ (i == j)
  key_beq i j = ground (arith, eq_iff id id)

  get-set-key :
      (i j : ℕ) (entry : Entry MessagePartData) (m : List (PartId × Entry MessagePartData))
      → Maps.get (key j) (Maps.set (key i) entry m)
        ≡ (if i == j then some entry else Maps.get (key j) m)
  get-set-key i j entry m =
      get-set (key i) (key j) entry m
      ∙ ap (λ b. if b then some entry else Maps.get (key j) m) (key_beq i j)

  get-delete-key :
      (i j : ℕ) (m : List (PartId × Entry MessagePartData))
      → Maps.get (key j) (Maps.delete (key i) m) ≡ (if i == j then none else Maps.get (key j) m)
  get-delete-key i j m =
      get-delete (key i) (key j) m ∙ ap (λ b. if b then none else Maps.get (key j) m) (key_beq i j)

  -- The parts with the indices `arrived` are in the map, and no other part of the message.
  pub record Holds (arrived : List ℕ) (g : PartMap) : Type 0 where
    pub distinct : IsMap g.entries
    pub limit : g.expiration_timeout_msec ≡ some timeout
    pub stored :
        (i : ℕ)
        → elem i arrived ≡ true
        → (entry : Entry MessagePartData) × (Maps.get (key i) g.entries ≡ some entry)
          × (get_elem? parts i ≡ some entry.value)
          × (start ≤ entry.timestamp)
    pub absent : (i : ℕ) → elem i arrived ≡ false → Maps.get (key i) g.entries ≡ none

  check-Holds :
      (now : ℕ) (arrived : List ℕ) (g : PartMap)
      → now ≤ start + timeout
      → Holds arrived g
      → Holds arrived (check_garbage_collection now g)
  check-Holds now arrived g soon h = record {
    distinct = check-IsMap now g h.distinct;
    limit = check-timeout now g ∙ h.limit;
    stored = λ i m.
        let (entry, found, part, fresh) = h.stored i m in
        (
          entry,
          check-keeps now g (key i) entry h.distinct found (rw h.limit (omega arith)),
          part,
          fresh,
        );
    absent = λ i m. check-none now g (key i) h.distinct (h.absent i m);
  }

  pub set-Holds :
      (now : ℕ) (arrived : List ℕ) (g : PartMap) (i : ℕ) (d : MessagePartData)
      → start ≤ now
      → now ≤ start + timeout
      → get_elem? parts i ≡ some d
      → Holds arrived g
      → Holds (i ∷ arrived) (GarbageMap.set now g (key i) d)
  unfolding GarbageMap.set
  set-Holds now arrived g i d late soon part h =
      let entry : Entry MessagePartData = record { value = d; timestamp = now } in
      check-Holds now (i ∷ arrived) (record g { entries = Maps.set (key i) entry g.entries }) soon
        (record {
          distinct = set-IsMap (key i) entry g.entries h.distinct;
          limit = h.limit;
          stored = λ j m. elim (Bool-cases (i == j)) [
            | inl t ↦ (
              entry,
              get-set-key i j entry g.entries ∙ rw t,
              subst (λ k. get_elem? parts k ≡ some d) ((nat_beq_iff i j).0 t) part,
              late,
            )
            | inr f ↦
                let (old, found, part', fresh) = h.stored j (ground arith) in
                (old, get-set-key i j entry g.entries ∙ rw f found, part', fresh)
          ];
          absent = λ j m. ground (arith, get-set-key i j entry g.entries, h.absent j);
        })

  pub collect-Holds :
      (now : ℕ) (arrived : List ℕ) (remaining i : ℕ) (g : PartMap)
      → now ≤ start + timeout
      → Holds arrived g
      → Holds arrived (collect_parts now id (length parts) remaining i g).0
  unfolding collect_parts GarbageMap.get
  collect-Holds now arrived zero i g soon h = h
  collect-Holds now arrived (suc remaining) i g soon h =
      let c = check-Holds now arrived g soon h in
      ground (
        arith,
        c,
        collect-Holds now arrived remaining (suc i) (check_garbage_collection now g) soon c,
      )

  -- If the parts from `i` on are there, the loop finds them all.
  pub collect_all :
      (now : ℕ) (arrived : List ℕ) (remaining i : ℕ) (g : PartMap)
      → now ≤ start + timeout
      → i + remaining ≡ length parts
      → Holds arrived g
      → ((j : ℕ) → j < length parts → elem j arrived ≡ true)
      → (collect_parts now id (length parts) remaining i g).1 ≡ some (drop i parts)
  unfolding collect_parts GarbageMap.get
  collect_all now arrived zero i g soon total h every = ground (arith, drop_of_length-le i parts)
  collect_all now arrived (suc remaining) i g soon total h every =
      let c = check-Holds now arrived g soon h in
      let (entry, found, part, fresh) = c.stored i (every i (omega arith)) in
      ground (
        arith,
        drop-cons i parts entry.value part,
        collect_all now arrived remaining (suc i) (check_garbage_collection now g) soon
            (omega arith) c every,
      )

  -- If a part from `i` on is missing, it does not.
  pub collect_missing :
      (now : ℕ) (arrived : List ℕ) (remaining i j : ℕ) (g : PartMap)
      → now ≤ start + timeout
      → i ≤ j
      → j < i + remaining
      → Holds arrived g
      → elem j arrived ≡ false
      → (collect_parts now id (length parts) remaining i g).1 ≡ none
  unfolding collect_parts GarbageMap.get
  collect_missing now arrived zero i j g soon low high h missing = absurd (omega arith)
  collect_missing now arrived (suc remaining) i j g soon low high h missing =
      let c = check-Holds now arrived g soon h in
      elim (dec_lt i j) [
        | yes lt ↦ ground (
          arith,
          collect_missing now arrived remaining (suc i) j (check_garbage_collection now g) soon lt
              (omega arith) c missing,
        )
        | no ge ↦
            let e : j ≡ i = omega arith in
            ground (arith, c.absent i (subst (λ k. elem k arrived ≡ false) e missing))
      ]

  -- The second loop leaves no part of the message.
  pub delete-none :
      (now : ℕ) (remaining i j : ℕ) (g : PartMap)
      → IsMap g.entries
      → (Maps.get (key j) g.entries ≡ none) ⊎ ((i ≤ j) × (j < i + remaining))
      → Maps.get (key j) (delete_parts now id (length parts) remaining i g).entries ≡ none
  unfolding delete_parts GarbageMap.delete
  delete-none now zero i j g h (inl missing) = missing
  delete-none now zero i j g h (inr (low, high)) = absurd (omega arith)
  delete-none now (suc remaining) i j g h c =
      delete-none now remaining (suc i) j (GarbageMap.delete now g (key i))
        (delete_keeps_IsMap now g (key i) h)
        (elim (dec_lt i j) [
          | yes lt ↦ elim c [
            | inl missing ↦ inl (GarbageMap.Laws.delete-none now g (key i) (key j) h (inr missing))
            | inr (low, high) ↦ inr (lt, omega arith)
          ]
          | no ge ↦ inl (
              GarbageMap.Laws.delete-none now g (key i) (key j) h (elim c [
                | inl missing ↦ inr missing
                | inr (low, high) ↦ inl (ap key (omega arith))
              ]))
        ])
