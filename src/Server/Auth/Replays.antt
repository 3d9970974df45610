-- ===== src/Server/Auth/Replays.antt =====
-- An envelope that got in does not get in again while the cache remembers it.
use secupload.Base.{
  ℕ, ◌<◌, ◌≤◌, ◌≡◌, ◌⊎◌, refl, arith, if◌then◌else◌, Option-cases, true, false, List, [], ◌∷◌,
  length, Bytes, Bool-cases, inl, inr,
}
use secupload.Base.Result.{Result, ok, err, Error, Code}
use secupload.Crypto.{Primitives}
use secupload.Models.{CredentialPublic, IdentityKind, RotationParams, timestamp_window}
use secupload.Protocol.Envelope
use secupload.Protocol.Envelope.{Envelope}
use secupload.Replay.{check_and_add, timestamp_ok}
use secupload.Replay.Window.{IsValid, check_all, replay_rejected}
use secupload.Server.Auth.{
  State, authenticate, verify_sender, judge, accept, identity_kind_of, replay_key,
  usable_credential,
}

module _ (prim : Primitives) (params : RotationParams) where
  -- The state after a sequence of envelopes, each with the time of its arrival.
  unfoldable pub authenticate_all : List (Envelope × ℕ) → State → State
  authenticate_all [] s = s
  authenticate_all ((env, now) ∷ rest) s =
      authenticate_all rest (authenticate prim params env now s).1

  -- The keys that those envelopes put into the cache.
  keys : List (Envelope × ℕ) → List Bytes
  keys [] = []
  keys ((env, now) ∷ rest) =
      let later = keys rest in
      if timestamp_ok env.timestamp now timestamp_window then replay_key env ∷ later else later

  length-keys : (envs : List (Envelope × ℕ)) → length (keys envs) ≤ length envs
  unfolding keys
  length-keys [] = omega arith
  length-keys ((env, now) ∷ rest) = ground (arith, length-keys rest)

  replay-judge :
      (r : Result (Unit {0})) (env : Envelope) (cred : CredentialPublic) (s : State)
      → (judge r env cred s).1.replay ≡ s.replay
  unfolding judge accept identity_kind_of
  replay-judge r env cred s = ground arith

  replay-verify_sender :
      (env : Envelope) (now : ℕ) (s : State)
      → (verify_sender prim params env now s).1.replay ≡ s.replay
  unfolding verify_sender
  replay-verify_sender env now s = elim (Option-cases (usable_credential params s.db env now)) [
    | inl absent ↦ ground arith
    | inr (w, found) ↦
        ground (arith, replay-judge (Envelope.verify prim env w.ed25519_public) env w s)
  ]

  replay-authenticate :
      (env : Envelope) (now : ℕ) (s : State)
      → timestamp_ok env.timestamp now timestamp_window ≡ true
      → (authenticate prim params env now s).1.replay ≡ (check_and_add (replay_key env) s.replay).1
  unfolding authenticate
  replay-authenticate env now s h =
      let cache = (check_and_add (replay_key env) s.replay).1 in
      ground (arith, replay-verify_sender env now (record s { replay = cache }))

  replay-authenticate_stale :
      (env : Envelope) (now : ℕ) (s : State)
      → timestamp_ok env.timestamp now timestamp_window ≡ false
      → (authenticate prim params env now s).1.replay ≡ s.replay
  unfolding authenticate
  replay-authenticate_stale env now s h = ground arith

  replay-authenticate_all :
      (envs : List (Envelope × ℕ)) (s : State)
      → (authenticate_all envs s).replay ≡ check_all (keys envs) s.replay
  unfolding authenticate_all keys check_all
  replay-authenticate_all [] s = refl
  replay-authenticate_all ((env, now) ∷ rest) s =
      let s1 = (authenticate prim params env now s).1 in
      let later = replay-authenticate_all rest s1 in
      elim (Bool-cases (timestamp_ok env.timestamp now timestamp_window)) [
        | inl fresh ↦ ground (arith, later, replay-authenticate env now s fresh)
        | inr stale ↦ ground (arith, later, replay-authenticate_stale env now s stale)
      ]

  authenticate_known :
      (env : Envelope) (now : ℕ) (s : State)
      → (check_and_add (replay_key env) s.replay).0 ≡ false
      → ((authenticate prim params env now s).0 ≡ err (Error.auth_error Code.stale_timestamp))
        ⊎ ((authenticate prim params env now s).0 ≡ err (Error.auth_error Code.replay))
  unfolding authenticate
  authenticate_known env now s h =
      elim (Bool-cases (timestamp_ok env.timestamp now timestamp_window)) [
        | inl fresh ↦ inr (ground arith)
        | inr stale ↦ inl (ground arith)
      ]

  authenticated_is_fresh :
      (env : Envelope) (now : ℕ) (s : State) (a : IdentityKind × CredentialPublic)
      → (authenticate prim params env now s).0 ≡ ok a
      → timestamp_ok env.timestamp now timestamp_window ≡ true
  unfolding authenticate
  authenticated_is_fresh env now s a h = ground arith

  -- Where the replay cache is valid, an envelope that was authenticated is refused when it comes again
  -- at any time, as stale or as a replay, as long as fewer other envelopes than the replay cache has places came between.
  pub replayed_is_refused :
      (env : Envelope) (first later : ℕ) (between : List (Envelope × ℕ)) (s : State)
      (a : IdentityKind × CredentialPublic)
      → IsValid s.replay
      → length between < s.replay.max_entries
      → (authenticate prim params env first s).0 ≡ ok a
      → ((authenticate prim params env later
            (authenticate_all between (authenticate prim params env first s).1)).0
          ≡ err (Error.auth_error Code.stale_timestamp))
        ⊎ ((authenticate prim params env later
              (authenticate_all between (authenticate prim params env first s).1)).0
            ≡ err (Error.auth_error Code.replay))
  replayed_is_refused env first later between s a valid room got_in =
      let fresh = authenticated_is_fresh env first s a got_in in
      let s1 = (authenticate prim params env first s).1 in
      authenticate_known env later (authenticate_all between s1) (
        rw (replay-authenticate_all between s1, replay-authenticate env first s fresh)
          (replay_rejected (replay_key env) (keys between) s.replay valid
            (omega (arith, room, length-keys between))))
