-- ===== src/Rotation/Commands.antt =====
-- The engine's life as a sequence of calls: any order, any arguments, any clock.
use secupload.Base.{ℕ, ◌≤◌, List, [], ◌∷◌, Bytes, arith}
use secupload.Crypto.{Primitives}
use secupload.Models.{CredentialPublic, RotationParams}
use secupload.Rotation
use secupload.Rotation.{RotationEngine, versions_in_window}
use secupload.Rotation.Counts.{count}
use secupload.Rotation.Valid.{IsValid, IsValid-window}
use secupload.Rotation.Invariant.{
  provision_initial-IsValid, submit_successor-IsValid, checkpoint-IsValid, rollback-IsValid,
  revoke-IsValid, expire_all-IsValid,
}

-- A call of a method that writes.
pub data Command : Type 0 where
  provision : CredentialPublic → ℕ → Command
  submit : CredentialPublic → Bytes → Bytes → ℕ → Command
  promote rollback expire : ℕ → Command
  revoke : ℕ → ℕ → Command

-- `RotationEngine(params)`
abbrev pub new : RotationParams → RotationEngine
new params = record { params = params; creds = [] }

module _ (prim : Primitives) where
  -- The engine after a call, whether or not the call raised.
  unfoldable pub run : Command → RotationEngine → RotationEngine
  run (Command.provision cred now) e = (Rotation.provision_initial cred now e).1
  run (Command.submit cred sig meta now) e = (Rotation.submit_successor prim cred sig meta now e).1
  run (Command.promote now) e = (Rotation.checkpoint now e).1
  run (Command.rollback now) e = (Rotation.rollback now e).1
  run (Command.expire now) e = (Rotation.expire_all now e).1
  run (Command.revoke v now) e = (Rotation.revoke v now e).1

  unfoldable pub run_all : List Command → RotationEngine → RotationEngine
  unfolding run
  run_all [] e = e
  run_all (c ∷ cs) e = run_all cs (run c e)

  pub run-IsValid : (c : Command) (e : RotationEngine) → IsValid e → IsValid (run c e)
  unfolding run
  run-IsValid (Command.provision cred now) e h = provision_initial-IsValid cred now e h
  run-IsValid (Command.submit cred sig meta now) e h =
      submit_successor-IsValid prim cred sig meta now e h
  run-IsValid (Command.promote now) e h = checkpoint-IsValid now e h
  run-IsValid (Command.rollback now) e h = rollback-IsValid now e h
  run-IsValid (Command.expire now) e h = expire_all-IsValid now e h
  run-IsValid (Command.revoke v now) e h = revoke-IsValid v now e h

  run_all-IsValid : (cs : List Command) (e : RotationEngine) → IsValid e → IsValid (run_all cs e)
  unfolding run_all
  run_all-IsValid [] e h = h
  run_all-IsValid (c ∷ cs) e h = run_all-IsValid cs (run c e) (run-IsValid c e h)

pub new-IsValid : (params : RotationParams) → IsValid (new params)
unfolding count
new-IsValid params = omega arith

-- From a new engine on, after any sequence of calls, whatever they raise, there is at most one
-- ACTIVE, at most one FALLBACK and at most one VALIDATING credential, each under its own version,
-- and the window never holds more than three.
pub window_bounded :
    (prim : Primitives) (params : RotationParams) (cs : List Command)
    → IsValid (run_all prim cs (new params))
      × (versions_in_window (run_all prim cs (new params)) ≤ 3)
window_bounded prim params cs =
    let h = run_all-IsValid prim cs (new params) (new-IsValid params) in (h, IsValid-window _ h)
