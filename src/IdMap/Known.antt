-- ===== src/IdMap/Known.antt =====
-- A property that all waiting clients have: it is kept as long as the new clients have it.
use dns_relay_server.Base.{
  ℕ, ◌+◌, ◌/◌, ◌%◌, ◌≡◌, ap, refl, Option, none, some, ◌==◌, Bool-cases, inl, inr, update,
}
use dns_relay_server.Net.{SockAddr}
use dns_relay_server.IdMap.{
  MapNode, IdMap, max_map_size, uint16_max, convert_ttl, is_live, fill, add_at, take_slot,
  add_to_map, query_map,
}

-- Every client that waits in a slot.
abbrev pub AllWaiting : (SockAddr → Type 0) → IdMap → Type 0
AllWaiting P m = (i : ℕ) → (node : MapNode) → m.slots i ≡ some node → P node.from

abbrev from_of : Option (ℕ × SockAddr) → SockAddr
from_of none = record { sin_addr = 0; sin_port = 0 }
from_of (some (origin, from)) = from

module _ (P : SockAddr → Type 0) (m : IdMap) (all : AllWaiting P m) where
  -- A slot that is emptied.
  cleared : (index : ℕ) → AllWaiting P (record m { slots = update m.slots index none })
  cleared index i node e = elim (Bool-cases (index == i)) [
    | inl same ↦ let bad : none ≡ some node = rw same at e in cc
    | inr other ↦ all i node (rw other at e)
  ]

  take_slot-AllWaiting :
      (serial : ℕ) (slot : Option MapNode) → AllWaiting P (take_slot serial slot m).1
  unfolding take_slot
  take_slot-AllWaiting serial none = all
  take_slot-AllWaiting serial (some node) = elim (Bool-cases (node.last == serial / max_map_size)) [
    | inl same ↦ rw same (cleared (serial % max_map_size))
    | inr other ↦ rw other all
  ]

  pub query_map-AllWaiting : (serial : ℕ) → AllWaiting P (query_map serial m).1
  unfolding query_map
  query_map-AllWaiting serial = take_slot-AllWaiting serial (m.slots (serial % max_map_size))

  take_slot-client :
      (serial : ℕ) (slot : Option MapNode) (origin : ℕ) (to : SockAddr)
      → m.slots (serial % max_map_size) ≡ slot
      → (take_slot serial slot m).0 ≡ some (origin, to)
      → P to
  unfolding take_slot
  take_slot-client serial none origin to here e = absurd (cc e)
  take_slot-client serial (some node) origin to here e =
      elim (Bool-cases (node.last == serial / max_map_size)) [
        | inl same ↦
            let both : some (node.origin, node.from) ≡ some (origin, to) = rw same at e in
            let who : node.from ≡ to = ap from_of both in
            rw (← who) (all (serial % max_map_size) node here)
        | inr other ↦ let bad : none ≡ some (origin, to) = rw other at e in cc
      ]

  pub query_map-client :
      (serial origin : ℕ) (to : SockAddr) → (query_map serial m).0 ≡ some (origin, to) → P to
  unfolding query_map
  query_map-client serial origin to e =
      take_slot-client serial (m.slots (serial % max_map_size)) origin to refl e

  -- A slot that is filled.
  filled_in :
      (index : ℕ) (new : MapNode) (alloc : ℕ)
      → P new.from
      → AllWaiting P (record { slots = update m.slots index (some new); alloc = alloc })
  filled_in index new alloc ok_new i node e = elim (Bool-cases (index == i)) [
    | inl same ↦
        let who : new.from ≡ node.from =
          ap (λ (o : Option MapNode). elim o [ none ↦ new.from | some n ↦ n.from ])
            (rw same at e) in
        rw (← who) ok_new
    | inr other ↦ all i node (rw other at e)
  ]

  add_at-AllWaiting :
      (checked filled origin : ℕ) (from : SockAddr) (serial : ℕ)
      → P from
      → AllWaiting P (add_at checked filled origin from serial m).1
  unfolding add_at fill
  add_at-AllWaiting checked filled origin from serial new =
      elim (Bool-cases (is_live checked (m.slots (serial % max_map_size)))) [
        | inl busy ↦ rw busy all
        | inr free ↦ rw free (
            filled_in (serial % max_map_size)
              (record {
                last = serial / max_map_size;
                origin = origin;
                from = from;
                time_out = filled + convert_ttl;
              })
              serial new)
      ]

  pub add_to_map-AllWaiting :
      (checked filled origin : ℕ) (from : SockAddr)
      → P from
      → AllWaiting P (add_to_map checked filled origin (some from) m).1
  unfolding add_to_map
  add_to_map-AllWaiting checked filled origin from new =
      add_at-AllWaiting checked filled origin from ((m.alloc + 1) % uint16_max) new
