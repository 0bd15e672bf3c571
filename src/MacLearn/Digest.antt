-- ===== src/MacLearn/Digest.antt =====
-- What the controller does with the digests of the data plane.
use scion_int_p.Prelude.{
  ℕ, ◌^◌, ◌<◌, ◌≡◌, ◌≢◌, refl, sym, ap, ap₂, ◌∙◌, List, [], ◌∷◌, ◌++◌, Bytes, true, false, ==_refl,
  ne→==, append_assoc, append-nil, map, arith, All,
}
use native.Mathlib.Nat.{mod-eq_of_lt}
use scion_int_p.Outcome.{ok, throw, runtime_error}
use scion_int_p.P4Runtime.{
  DigestData, struct, other, DigestList, Update, insert, WriteMessage, digest_ack,
}
use scion_int_p.Exec.{stream_write, write, Trace, Env}
use scion_int_p.Connection.{
  SwitchConnection, create_write_request, add_update, send_write_request, ack_digest_list,
}
use scion_int_p.Bitstring.{to_bitstring}
use scion_int_p.Bitstring.RoundTrip.{from_bitstring-to_bitstring}
use scion_int_p.MacLearn.{
  MacLearningCtrl, learned, learn_loop, handle_digest, build_learn_table_entry,
  build_forward_table_entry,
}

-- A digest of the data plane: a source MAC address and the port that it came in by.
abbrev pub digest_of : ℕ × ℕ → DigestData
digest_of (mac, port) = struct (to_bitstring 6 mac ∷ to_bitstring 2 port ∷ [])

abbrev pub IsLearnable : ℕ × ℕ → Type 0
IsLearnable (mac, port) = (mac < 2 ^ 48) × (port < 2 ^ 16)

-- The updates that let the switch know an address: it is no longer reported, and packets to it go
-- to the port.
abbrev pub updates_for : List (ℕ × ℕ) → List Update
updates_for [] = []
updates_for ((mac, port) ∷ seen) =
    record { kind = insert; entity = build_learn_table_entry mac }
    ∷ record { kind = insert; entity = build_forward_table_entry mac port }
    ∷ updates_for seen

learned-digest_of : (m : ℕ × ℕ) → IsLearnable m → learned (digest_of m) ≡ ok m
unfolding learned
learned-digest_of (mac, port) h =
    ap₂ (λ a b. ok (a, b)) (from_bitstring-to_bitstring 8 6 mac (omega arith) ∙ mod-eq_of_lt h.0)
      (from_bitstring-to_bitstring 4 2 port (omega arith) ∙ mod-eq_of_lt h.1)

learn_loop-digests :
    (seen : List (ℕ × ℕ)) (rest : List DigestData) (message : WriteMessage)
    → All IsLearnable seen
    → learn_loop (map digest_of seen ++ rest) message
      ≡ learn_loop rest (record message { updates = message.updates ++ updates_for seen })
unfolding learn_loop add_update
learn_loop-digests [] rest message h =
    ap (λ us. learn_loop rest (record message { updates = us })) (sym (append-nil message.updates))
learn_loop-digests ((mac, port) ∷ seen) rest message h = rw (learned-digest_of (mac, port) h.0) (
    learn_loop-digests seen rest _ h.1
    ∙ ap (λ us. learn_loop rest (record message { updates = us }))
        (append_assoc (message.updates ++ (learn ∷ [])) (forward ∷ []) (updates_for seen)
          ∙ append_assoc message.updates (learn ∷ []) (forward ∷ updates_for seen)))
  where
    learn : Update
    learn = record { kind = insert; entity = build_learn_table_entry mac }

    forward : Update
    forward = record { kind = insert; entity = build_forward_table_entry mac port }

learn_loop-all :
    (seen : List (ℕ × ℕ)) (con : SwitchConnection)
    → All IsLearnable seen
    → learn_loop (map digest_of seen) (create_write_request con)
      ≡ ok (record (create_write_request con) { updates = updates_for seen })
unfolding learn_loop create_write_request
learn_loop-all seen con h =
    ap (λ ds. learn_loop ds (create_write_request con)) (sym (append-nil (map digest_of seen)))
    ∙ learn_loop-digests seen [] (create_write_request con) h

learned_invalid :
    (bad : DigestData)
    → ((mac port : Bytes) → bad ≢ struct (mac ∷ port ∷ []))
    → learned bad ≡ throw (runtime_error "Invalid digest format")
unfolding learned
learned_invalid other wrong = refl
learned_invalid (struct []) wrong = refl
learned_invalid (struct (mac ∷ [])) wrong = refl
learned_invalid (struct (mac ∷ port ∷ [])) wrong = absurd (wrong mac port refl)
learned_invalid (struct (mac ∷ port ∷ more ∷ others)) wrong = refl

learn_loop_invalid :
    (seen : List (ℕ × ℕ)) (bad : DigestData) (rest : List DigestData) (message : WriteMessage)
    → All IsLearnable seen
    → ((mac port : Bytes) → bad ≢ struct (mac ∷ port ∷ []))
    → learn_loop (map digest_of seen ++ (bad ∷ rest)) message
      ≡ throw (runtime_error "Invalid digest format")
unfolding learn_loop
learn_loop_invalid seen bad rest message h wrong =
    learn_loop-digests seen (bad ∷ rest) message h ∙ rw (learned_invalid bad wrong)

module _ (env : Env) (con : SwitchConnection) (ctrl : MacLearningCtrl) where
  -- A digest list of the learning digest, whose MAC addresses and ports are in range, is answered by
  -- one write request with the updates for its entries in order, and then acknowledged; the list is
  -- handled whatever the switch answers.
  pub handle_digest-updates :
      (seen : List (ℕ × ℕ)) (list_id : ℕ) (t : Trace)
      → All IsLearnable seen
      → handle_digest env con ctrl
          (record {
            digest_id = ctrl.mac_learn_digest_id;
            list_id = list_id;
            entries = map digest_of seen;
          })
          t
        ≡ (
          ok true,
          t
              ++ (write (record (create_write_request con) { updates = updates_for seen })
                  ∷ stream_write (digest_ack ctrl.mac_learn_digest_id list_id)
                  ∷ []),
        )
  unfolding handle_digest send_write_request ack_digest_list
  handle_digest-updates seen list_id t h =
      rw (==_refl ctrl.mac_learn_digest_id, learn_loop-all seen con h)
        (ap (λ u. (ok true, u)) (append_assoc t _ _))

  -- One entry of another form, behind any valid ones, makes `handleDigest` throw before it has sent
  -- anything: the valid entries are not learned and the list is not acknowledged.
  pub handle_digest_invalid :
      (seen : List (ℕ × ℕ)) (bad : DigestData) (rest : List DigestData) (list_id : ℕ) (t : Trace)
      → All IsLearnable seen
      → ((mac port : Bytes) → bad ≢ struct (mac ∷ port ∷ []))
      → handle_digest env con ctrl
          (record {
            digest_id = ctrl.mac_learn_digest_id;
            list_id = list_id;
            entries = map digest_of seen ++ (bad ∷ rest);
          })
          t
        ≡ (throw (runtime_error "Invalid digest format"), t)
  unfolding handle_digest
  handle_digest_invalid seen bad rest list_id t h wrong = rw (
    ==_refl ctrl.mac_learn_digest_id,
    learn_loop_invalid seen bad rest (create_write_request con) h wrong,
  )

  -- A list of another digest is left to the next controller, untouched.
  pub handle_digest_other :
      (digests : DigestList) (t : Trace)
      → digests.digest_id ≢ ctrl.mac_learn_digest_id
      → handle_digest env con ctrl digests t ≡ (ok false, t)
  unfolding handle_digest
  handle_digest_other digests t h = rw (ne→== _ _ h)
