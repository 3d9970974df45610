-- ===== src/Examples/Rotation.antt =====
-- The life of an identity's credentials, on the engines of Examples/Data.
use secupload.Base.{ℕ, ◌≡◌, ◌≤◌, ◌⊎◌, ◌↔◌, refl, arith, true, List, [], ◌∷◌, none, some, replicate}
use secupload.Base.Dict.{lookup}
use secupload.Base.Result.{ok, err, Error, Code}
use secupload.Models.{CredentialStatus, CredentialPublic}
use secupload.Rotation.{
  active, fallback, validating, by_status, is_expired, checkpoint, checkpoint_found,
  submit_successor, credential_for_auth, promoted, demoted, versions_in_window, store, submitted,
  with_status,
}
use secupload.Rotation.Commands.{Command, new, run, run_all, window_bounded}
use secupload.Rotation.Valid.{IsValid}
use secupload.Rotation.Edges.{EvolvesTo}
use secupload.Rotation.Lifecycle.{run-Evolves}
use secupload.Rotation.Promotion.{IsDue, checkpoint-promotes, checkpoint-ok_iff, checkpoint_refused}
use secupload.Rotation.Authentication.{retired_never_authenticates, fallback_authenticates}
use secupload.Rotation.Submission.{IsAuthorized, submit_successor-ok}
use secupload.Rotation.Waiting.{no_early_promotion}
use secupload.Examples.Data.{
  prim, params, credential, second, third, revoked, full, settled, full-IsValid, settled-IsValid,
}

abbrev calls : List Command
calls =
    Command.provision (credential 1 CredentialStatus.generated 0) 0
    ∷ Command.submit (credential 2 CredentialStatus.generated 0) (replicate 64 0) [] 10
    ∷ Command.promote 70
    ∷ Command.revoke 1 80
    ∷ []

window_bounded_example :
    IsValid (run_all prim calls (new params))
    × (versions_in_window (run_all prim calls (new params)) ≤ 3)
window_bounded_example = window_bounded prim params calls

-- By 80 the third credential's deadline, 70, has passed.
due : IsDue 80 full third second
unfolding validating active by_status is_expired
due = record {
  found_validating = refl;
  found_active = refl;
  reached = omega arith;
  live_validating = refl;
  live_active = refl;
}

checkpoint-promotes_example :
    ((changed : List CredentialPublic) × ((checkpoint 80 full).0 ≡ ok changed))
    × (active (checkpoint 80 full).1 ≡ some (promoted third 80))
    × (fallback (checkpoint 80 full).1 ≡ some (demoted params second 80))
    × (validating (checkpoint 80 full).1 ≡ none)
checkpoint-promotes_example = checkpoint-promotes 80 full third second full-IsValid due

checkpoint-ok_iff_example :
    ((changed : List CredentialPublic) × ((checkpoint 80 full).0 ≡ ok changed))
    ↔ ((v3 : CredentialPublic) × (v2 : CredentialPublic) × IsDue 80 full v3 v2)
checkpoint-ok_iff_example = checkpoint-ok_iff 80 full

-- At 200 the third credential has expired.
late : (checkpoint 200 full).0 ≡ err (Error.rotation_error Code.v3_expired)
unfolding checkpoint checkpoint_found validating by_status is_expired
late = refl

checkpoint_refused_example :
    ((checkpoint 200 full).1 ≡ full)
    ⊎ ((v3 : CredentialPublic) × (validating full ≡ some v3)
        × (is_expired v3 200 ≡ true)
        × (Error.rotation_error Code.v3_expired ≡ Error.rotation_error Code.v3_expired)
        × ((checkpoint 200 full).1
            ≡ store full v3.version (with_status v3 CredentialStatus.expired)))
checkpoint_refused_example = checkpoint_refused 200 full (Error.rotation_error Code.v3_expired) late

retired_never_authenticates_example : credential_for_auth (run_all prim calls settled) 1 5 ≡ none
retired_never_authenticates_example =
    retired_never_authenticates prim calls settled 1 5 revoked settled-IsValid refl (omega arith)

run-Evolves_example : EvolvesTo third (lookup 3 (run prim (Command.rollback 30) full).creds)
run-Evolves_example = run-Evolves prim (Command.rollback 30) full 3 third full-IsValid refl

fallback_authenticates_example :
    credential_for_auth (checkpoint 80 full).1 2 129 ≡ some (demoted params second 80)
fallback_authenticates_example =
    fallback_authenticates 80 129 full third second full-IsValid due (omega arith)

abbrev successor : CredentialPublic
successor = credential 3 CredentialStatus.generated 0

submission : (submit_successor prim successor (replicate 64 0) [] 60 settled).0 ≡ ok tt
unfolding submit_successor by_status secupload.Successor.encode_successor_payload
    secupload.Codec.Encoder.finish secupload.Codec.Encoder.◌≫◌ secupload.Codec.Encoder.bytes_
    secupload.Codec.Encoder.uuid_ secupload.Crypto.verify_ed25519
submission = refl

submit_successor-ok_example :
    ((signer : CredentialPublic) × (payload : List ℕ) × IsAuthorized prim successor
        (replicate 64 0)
        []
        60
        settled
        signer
        payload)
    × ((submit_successor prim successor (replicate 64 0) [] 60 settled).1
        ≡ store settled 3 (submitted params successor 60))
submit_successor-ok_example =
    submit_successor-ok prim successor (replicate 64 0) [] 60 settled submission

abbrev early_calls : List Command
early_calls = Command.promote 109 ∷ Command.expire 400 ∷ Command.revoke 2 70 ∷ []

no_early_promotion_example :
    credential_for_auth
      (run_all prim early_calls (submit_successor prim successor (replicate 64 0) [] 60 settled).1)
      3
      108
    ≡ none
no_early_promotion_example =
    no_early_promotion prim successor (replicate 64 0) [] 60 108 settled early_calls settled-IsValid
      submission (omega arith, (tt, (tt, tt)))
