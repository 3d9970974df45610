-- ===== src/Server/Connection/Authority.antt =====
-- server/sih_server/tunnel2.py: of the credentials a peer reaches only its own.
use secupload.Base.{ℕ, ◌==◌, ◌≡◌, ◌≢◌, ◌⊎◌, refl, arith, Bytes, inl, inr, Bool-cases, Option-cases}
use secupload.Base.Result.{Result, ok, err, Result-cases}
use secupload.Codec.Decoder
use secupload.Models.{CredentialPublic}
use secupload.Protocol.Codes.{ControlType, control_code}
use secupload.Protocol.Envelope.{Envelope}
use secupload.Server.Database.{Database}
use secupload.Server.Registry
use secupload.Server.Registry.{get_credential}
use secupload.Server.Registry.Refinement.{IsSound, perform-IsSound, transition_refines_engine}
use secupload.Server.Registry.Transactions.{
  Transition, perform, failure-database, failed_transition_writes_nothing,
}
use secupload.Server.Connection.{World, Setting, Draws, database}
use secupload.Server.Connection.Control.{
  handle_rotate_submit, handle_rotate_action, submit_payload, revoke_action, before_signature,
  last_signature,
}
use secupload.Successor.{SuccessorPayload, parse_successor_payload}

-- A call of the registry on the shared state, as a transition of one identity.
abbrev IsTransition : Setting → ℕ → Database → Database → Type 0
IsTransition cfg u db db1 =
    (db1 ≡ db) ⊎ ((t : Transition) × (db1 ≡ (perform cfg.prim cfg.params u t db).1))

submit_payload-IsTransition :
    (cfg : Setting) (draws : Draws) (env : Envelope) (p : SuccessorPayload) (sig : Bytes)
    (w : World)
    → IsTransition cfg env.sender_uuid
        (database w)
        (database (submit_payload cfg draws env p sig w).1)
unfolding submit_payload perform
submit_payload-IsTransition cfg draws env p sig w =
    elim (Bool-cases (p.identity_uuid == env.sender_uuid)) [
      | inr other ↦ inl (ground arith)
      | inl own ↦ inr (
        Transition.submitting p.new_version p.new_ed25519_public p.new_x25519_public sig
            p.transition_metadata draws.now,
        ground (
          arith,
          own,
          failure-database (
              Registry.submit_successor cfg.prim cfg.params env.sender_uuid p.new_version
                p.new_ed25519_public p.new_x25519_public sig p.transition_metadata draws.now
                (database w)),
        ),
      )
    ]

handle_rotate_submit-IsTransition :
    (cfg : Setting) (draws : Draws) (env : Envelope) (cred : CredentialPublic) (inner : Bytes)
    (w : World)
    → IsTransition cfg env.sender_uuid
        (database w)
        (database (handle_rotate_submit cfg draws env cred inner w).1)
unfolding handle_rotate_submit
handle_rotate_submit-IsTransition cfg draws env cred inner w =
    elim (Result-cases (parse_successor_payload (before_signature inner))) [
      | inr (x, bad) ↦ inl (ground arith)
      | inl (p, read) ↦
          rw (read, handle_rotate_submit)
            (submit_payload-IsTransition cfg draws env p (last_signature inner) w)
    ]

revoke_action-IsTransition :
    (cfg : Setting) (draws : Draws) (env : Envelope) (r : Result ℕ) (w : World)
    → IsTransition cfg env.sender_uuid (database w) (database (revoke_action cfg draws env r w).1)
unfolding revoke_action perform
revoke_action-IsTransition cfg draws env (err x) w = inl refl
revoke_action-IsTransition cfg draws env (ok version) w = inr (
  Transition.revoking version draws.now,
  ground (
    arith,
    failure-database (Registry.revoke cfg.params env.sender_uuid version draws.now (database w)),
  ),
)

handle_rotate_action-IsTransition :
    (cfg : Setting) (draws : Draws) (ctype : ℕ) (env : Envelope) (cred : CredentialPublic)
    (inner : Bytes) (w : World)
    → IsTransition cfg env.sender_uuid
        (database w)
        (database (handle_rotate_action cfg draws ctype env cred inner w).1)
unfolding handle_rotate_action perform
handle_rotate_action-IsTransition cfg draws ctype env cred inner w =
    elim (Bool-cases (ctype == control_code ControlType.rotate_checkpoint)) [
      | inl is ↦ inr (
        Transition.promoting draws.now,
        ground (
          arith,
          is,
          failure-database (Registry.checkpoint cfg.params env.sender_uuid draws.now (database w)),
        ),
      )
      | inr not_checkpoint ↦ elim (Bool-cases (ctype == control_code ControlType.rotate_rollback)) [
        | inl is ↦ inr (
          Transition.rolling_back draws.now,
          ground (
            arith,
            not_checkpoint,
            is,
            failure-database (Registry.rollback cfg.params env.sender_uuid draws.now (database w)),
          ),
        )
        | inr not_rollback ↦ elim (Bool-cases (ctype == control_code ControlType.rotate_revoke)) [
          | inl is ↦
              rw (not_checkpoint, handle_rotate_action, not_rollback, is)
                (revoke_action-IsTransition cfg draws env (Decoder.decode Decoder.u32 inner) w)
          | inr other ↦ inl (ground arith)
        ]
      ]
    ]

-- A transition of one identity leaves the credentials of the others, and the tables sound.
IsTransition-others :
    (cfg : Setting) (u w v : ℕ) (db db1 : Database)
    → IsSound cfg.params db
    → IsTransition cfg u db db1
    → w ≢ u
    → (get_credential db1 w v ≡ get_credential db w v) × IsSound cfg.params db1
IsTransition-others cfg u w v db db1 sound (inl same) other = rw same (refl, sound)
IsTransition-others cfg u w v db db1 sound (inr (t, moved)) other =
    let kept = perform-IsSound cfg.prim cfg.params db u t sound in
    elim (Option-cases (perform cfg.prim cfg.params u t db).0) [
      | inr (x, raised) ↦
          let unmoved = failed_transition_writes_nothing cfg.prim cfg.params u t db x raised in
          rw (moved, unmoved) (refl, sound)
      | inl done ↦
          let (e, loaded, found) =
            transition_refines_engine cfg.prim cfg.params db u t sound done in
          rw moved (ground (arith, found w v), kept)
    ]

-- On sound tables, a rotation message of an authenticated sender, a submission, a checkpoint, a rollback
-- or a revocation, whatever its payload says and whatever it raises, leaves every credential of every
-- other identity as it was, and the tables sound.
pub rotation_is_own :
    (cfg : Setting) (draws : Draws) (ctype : ℕ) (env : Envelope) (cred : CredentialPublic)
    (inner : Bytes) (w : World) (u v : ℕ)
    → IsSound cfg.params (database w)
    → u ≢ env.sender_uuid
    → let submitted = database (handle_rotate_submit cfg draws env cred inner w).1 in
      let acted = database (handle_rotate_action cfg draws ctype env cred inner w).1 in
      (get_credential submitted u v ≡ get_credential (database w) u v)
      × IsSound cfg.params submitted
      × (get_credential acted u v ≡ get_credential (database w) u v)
      × IsSound cfg.params acted
rotation_is_own cfg draws ctype env cred inner w u v sound other =
    let (same, kept) =
      IsTransition-others cfg env.sender_uuid u v (database w) _ sound
        (handle_rotate_submit-IsTransition cfg draws env cred inner w) other in
    let (same_too, kept_too) =
      IsTransition-others cfg env.sender_uuid u v (database w) _ sound
        (handle_rotate_action-IsTransition cfg draws ctype env cred inner w) other in
    (same, kept, same_too, kept_too)
