-- ===== src/Tests/Room.antt =====
-- When the tables of the tests have room for what a trace writes.
use scion_int_p.Prelude.{ℕ, suc, ◌+◌, ◌≤◌, ◌≡◌, refl, List, [], ◌∷◌, inr, arith, length, lt→ltb}
use scion_int_p.P4Runtime.{
  TableEntry, Entity, Update, table_entry, multicast_group_entry, clone_session_entry, digest_entry,
}
use scion_int_p.P4Runtime.Switch.{RoomFor, RoomForAll, HasRoom, apply_all, arrive}
use scion_int_p.Exec.{
  Trace, stream_write, set_pipeline, write, produce, tcp_connect, tcp_write, tcp_close,
}
use scion_int_p.Tests.Tables.{Tables, add, tables}

abbrev pub updates_in : Trace → ℕ
updates_in [] = 0
updates_in (write m ∷ t) = length m.updates + updates_in t
updates_in (_ ∷ t) = updates_in t

length-add : (es : Tables) (e : TableEntry) → length (add es e) ≡ length es + 1
length-add [] e = refl
length-add (e' ∷ es) e = omega (arith, length-add es e)

abbrev Fits : Tables → Update → Type 0
Fits es u = RoomFor tables es u × (length (tables.apply es u) ≤ length es + 1)

fits : (es : Tables) (u : Update) → suc (length es) ≤ 1024 → Fits es u
fits es u h = kind_of u.entity
  where
    kind_of : (entity : Entity) → Fits es (record u { entity = entity })
    kind_of (table_entry e) =
        let room = lt→ltb (length es) 1024 h in rw room (inr refl, omega (arith, length-add es e))
    kind_of (multicast_group_entry id replicas) = (tt, omega arith)
    kind_of (clone_session_entry session) = (tt, omega arith)
    kind_of (digest_entry digest) = (tt, omega arith)

all_fit :
    (us : List Update) (es : Tables)
    → length es + length us ≤ 1024
    → RoomForAll tables es us × (length (apply_all tables es us) ≤ length es + length us)
all_fit [] es h = (tt, omega arith)
all_fit (u ∷ us) es h =
    let (room, grown) = fits es u (omega (arith, h)) in
    let (rooms, grown') = all_fit us (tables.apply es u) (omega (arith, h, grown)) in
    ((room, rooms), omega (arith, grown, grown'))

-- So few updates that all fit.
pub updates_in-HasRoom :
    (t : Trace) (es : Tables) → length es + updates_in t ≤ 1024 → HasRoom tables es t
unfolding arrive
updates_in-HasRoom [] es h = tt
updates_in-HasRoom (write m ∷ t) es h =
    let (room, grown) = all_fit m.updates es (omega (arith, h)) in
    (room, updates_in-HasRoom t _ (omega (arith, h, grown)))
updates_in-HasRoom (set_pipeline m ∷ t) es h = (tt, updates_in-HasRoom t [] (omega (arith, h)))
updates_in-HasRoom (stream_write m ∷ t) es h = (tt, updates_in-HasRoom t es h)
updates_in-HasRoom (produce topic key report ∷ t) es h = (tt, updates_in-HasRoom t es h)
updates_in-HasRoom (tcp_connect ip port ∷ t) es h = (tt, updates_in-HasRoom t es h)
updates_in-HasRoom (tcp_write bytes ∷ t) es h = (tt, updates_in-HasRoom t es h)
updates_in-HasRoom (tcp_close ∷ t) es h = (tt, updates_in-HasRoom t es h)
