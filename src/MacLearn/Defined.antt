-- ===== src/MacLearn/Defined.antt =====
-- The learning switch returns or throws, whatever it is given.
use scion_int_p.Prelude.{ℕ, codes, some, ◌≡◌, List, [], ◌∷◌, Bool, Bool-cases, inl, inr, ◌==◌}
use scion_int_p.Outcome.{Ends, Ends-bind}
use scion_int_p.P4Runtime.{P4Info, DigestData, struct, other, DigestList, WriteMessage}
use scion_int_p.Exec.{Env, lift}
use scion_int_p.Exec.Always.{Always, Always-bind}
use scion_int_p.Connection.{
  SwitchConnection, create_write_request, send_write_request, ack_digest_list,
}
use scion_int_p.MacLearn.{
  MacLearningCtrl, find_id, mac_learning_ctrl, learned, learn_loop, handle_digest,
  create_flood_multicast_group, install_static_table_entries, config_digest_messages,
  handle_arbitration_update,
}

abbrev pub Any {ℓ} : {A : Type ℓ} → A → Type 0
Any a = Unit {0}

learned-Ends : (digest : DigestData) → Ends Any (learned digest)
unfolding learned
learned-Ends other = tt
learned-Ends (struct []) = tt
learned-Ends (struct (mac ∷ [])) = tt
learned-Ends (struct (mac ∷ port ∷ [])) = tt
learned-Ends (struct (mac ∷ port ∷ more ∷ others)) = tt

learn_loop-Ends :
    (digests : List DigestData) (message : WriteMessage) → Ends Any (learn_loop digests message)
unfolding learn_loop
learn_loop-Ends [] message = tt
learn_loop-Ends (digest ∷ digests) message =
    Ends-bind Any Any (learned digest) _ (learned-Ends digest) λ m u. learn_loop-Ends digests _

module _ (env : Env) (con : SwitchConnection) (ctrl : MacLearningCtrl) where
  pub handle_digest-Always :
      (digests : DigestList) → Always Any (handle_digest env con ctrl digests)
  unfolding handle_digest send_write_request ack_digest_list
  handle_digest-Always digests t =
      elim (Bool-cases (digests.digest_id == ctrl.mac_learn_digest_id)) [
        | inl own ↦ rw own (
            Always-bind Any (Any {A = Bool})
              (lift (learn_loop digests.entries (create_write_request con))) _
              (λ u. learn_loop-Ends digests.entries (create_write_request con)) (λ m h u. tt) t)
        | inr another ↦ rw another tt
      ]

  pub mac_handle_arbitration_update-Always :
      (status : ℕ) → Always Any (handle_arbitration_update env con ctrl status)
  unfolding handle_arbitration_update create_flood_multicast_group install_static_table_entries
      config_digest_messages send_write_request
  mac_handle_arbitration_update-Always status t = elim (Bool-cases (status == 0)) [
    | inl elected ↦ rw elected tt
    | inr lost ↦ rw lost tt
  ]

-- The constructor reads `macLearnDigestId` only where the digest was found.
pub mac_learning_ctrl_found :
    (p4info : P4Info) (id : ℕ)
    → find_id (codes "macLearnMsg_t") p4info.digests ≡ some id
    → Ends Any (mac_learning_ctrl p4info)
unfolding mac_learning_ctrl
mac_learning_ctrl_found p4info id found = elim (Bool-cases (id == 0)) [
  | inl zero ↦ rw (found, zero) tt
  | inr positive ↦ rw (found, positive) tt
]
