-- ===== src/MacLearn/Flood.antt =====
-- The multicast groups by which the data plane floods a packet.
use scion_int_p.Prelude.{
  ℕ, zero, suc, ◌+◌, ◌<◌, ◌≡◌, refl, sym, ap, ◌∙◌, List, [], ◌∷◌, ◌++◌, Bool, true, false, ◌&&◌,
  not, some, ltb, leb, ◌==◌, if◌then◌else◌, length, get_elem?, append_assoc, append-nil, map, arith,
}
use scion_int_p.P4Runtime.{Replica, Update, insert, multicast_group_entry, WriteMessage}
use scion_int_p.Connection.{SwitchConnection, create_write_request, add_update}
use scion_int_p.MacLearn.{replica_loop, build_flood_mcast_grp_entity, flood_loop}

-- Whether a packet of the group leaves by the port.
pub reaches : ℕ → List Replica → Bool
reaches port [] = false
reaches port (r ∷ rs) = if r.egress_port == port then true else reaches port rs

abbrev pub count_from : ℕ → ℕ → List ℕ
count_from zero n = []
count_from (suc rounds) n = n ∷ count_from rounds (n + 1)

reaches-replica_loop :
    (port exclude rounds i count : ℕ)
    → reaches port (replica_loop exclude rounds i count)
      ≡ (leb i port && ltb port (i + rounds) && not (port == exclude))
unfolding reaches replica_loop
reaches-replica_loop port exclude zero i count = ground arith
reaches-replica_loop port exclude (suc rounds) i count = ground (
  arith,
  reaches-replica_loop port exclude rounds (i + 1) count,
  reaches-replica_loop port exclude rounds (i + 1) (count + 1),
)

instances-replica_loop :
    (exclude rounds i count : ℕ)
    → map (λ r. r.instance_id) (replica_loop exclude rounds i count)
      ≡ count_from (length (replica_loop exclude rounds i count)) count
unfolding replica_loop
instances-replica_loop exclude zero i count = refl
instances-replica_loop exclude (suc rounds) i count = ground (
  arith,
  instances-replica_loop exclude rounds (i + 1) count,
  instances-replica_loop exclude rounds (i + 1) (count + 1),
)

abbrev group : ℕ → Update
group i = record { kind = insert; entity = build_flood_mcast_grp_entity (i + 1) i }

updates-flood_loop :
    (rounds i : ℕ) (message : WriteMessage)
    → (flood_loop rounds i message).updates ≡ message.updates ++ map group (count_from rounds i)
unfolding flood_loop add_update
updates-flood_loop zero i message = sym (append-nil message.updates)
updates-flood_loop (suc rounds) i message =
    updates-flood_loop rounds (i + 1)
      (add_update insert (build_flood_mcast_grp_entity (i + 1) i) message)
    ∙ append_assoc message.updates (group i ∷ []) (map group (count_from rounds (i + 1)))

get_elem?-groups :
    (rounds n i : ℕ)
    → i < rounds
    → get_elem? (map group (count_from rounds n)) i ≡ some (group (n + i))
get_elem?-groups zero n i h = absurd (omega arith)
get_elem?-groups (suc rounds) n zero h = ap (λ k. some (group k)) (omega arith)
get_elem?-groups (suc rounds) n (suc i) h =
    get_elem?-groups rounds (n + 1) i (omega arith) ∙ ap (λ k. some (group k)) (omega arith)

-- The request of `createFloodMulticastGroup` inserts, for each switch port `ingress`, group number
-- `ingress + 1`: a packet of this group leaves by every switch port but `ingress` and by no other
-- port, and the replicas are numbered from 0 on.
pub flood_group :
    (con : SwitchConnection) (ingress : ℕ)
    → ingress < 8
    → (replicas : List Replica) × (get_elem?
          (flood_loop 8 0 (create_write_request con)).updates
          ingress
        ≡ some (record { kind = insert; entity = multicast_group_entry (ingress + 1) replicas }))
      × ((port : ℕ) → reaches port replicas ≡ (ltb port 8 && not (port == ingress)))
      × (map (λ r. r.instance_id) replicas ≡ count_from (length replicas) 0)
unfolding build_flood_mcast_grp_entity create_write_request
flood_group con ingress h = (
  replica_loop ingress 8 0 0,
  ap (λ us. get_elem? us ingress) (updates-flood_loop 8 0 (create_write_request con))
      ∙ get_elem?-groups 8 0 ingress h
      ∙ ap (λ k. some (group k)) (omega arith),
  λ port. reaches-replica_loop port ingress 8 0 0 ∙ ground arith,
  instances-replica_loop ingress 8 0 0,
)
