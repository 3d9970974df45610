-- ===== src/Server/Identity/Rotating.antt =====
-- server/sih_server/identity.py: the periodic tick brings a successor from its submission to its
-- promotion.
use secupload.Base.{
  ℕ, ◌+◌, ◌≤◌, ◌<◌, ◌≡◌, refl, arith, true, false, none, some, [], Bytes, length, sym, ap, subst,
}
use secupload.Base.Dict.{lookup, insert, lookup-insert, max_key}
use secupload.Base.Result.{ok}
use secupload.Crypto.{Primitives, sign_ed25519}
use secupload.Models.{CredentialPublic, RotationParams, validation_period, total_validity}
use secupload.Rotation
use secupload.Rotation.{
  RotationEngine, active, fallback, validating, is_expired, store, submitted, promoted, demoted,
  checkpoint,
}
use secupload.Rotation.Acceptance.{submit_successor-accepts, validating-store, active-store}
use secupload.Rotation.Invariant.{submit_successor-IsValid}
use secupload.Rotation.Promotion.{IsDue, checkpoint-promotes}
use secupload.Rotation.Submission.{IsAuthorized}
use secupload.Rotation.Valid.{IsValid}
use secupload.Server.Registry.{generated_credential}
use secupload.Server.Identity.{
  ServerIdentity, Fresh, maybe_rotate, rotate_loaded, ensure_loaded, submit_due, promote_due,
  submit_successor, rotation_due, active_keys, credential, keys, keys_of, active_credential,
  successor_signature, persist, save_keys,
}
use secupload.Successor.{encode_successor_payload}

-- The record that a tick submits.
abbrev pub successor : ℕ → CredentialPublic → Fresh → CredentialPublic
successor u a (ed, x) = generated_credential u (a.version + 1) ed.1 x.1

module _ (prim : Primitives) (params : RotationParams) (u : ℕ) where
  -- A loaded identity whose newest credential is the active one, with its private keys, and no
  -- successor.
  pub record IsSettled (s : ServerIdentity) (a : CredentialPublic) (pair : Bytes × Bytes)
      : Type 0 where
    pub is_loaded : s.loaded ≡ true
    pub valid : IsValid s.engine
    pub same_params : s.engine.params ≡ params
    pub found_active : active s.engine ≡ some a
    pub alone : validating s.engine ≡ none
    pub newest : max_key s.engine.creds ≡ a.version
    pub owner : a.identity_uuid ≡ u
    pub held : lookup a.version s.keys ≡ some pair

  -- The payload of the successor can be signed by the key of the active credential, and its public key
  -- verifies what it signs.
  pub record CanSign (a : CredentialPublic) (pair : Bytes × Bytes) (c : CredentialPublic)
      (payload sig : Bytes) : Type 0 where
    pub encodes :
        encode_successor_payload u a.version c.version c.ed25519_public c.x25519_public []
        ≡ ok payload
    pub signs : prim.ed25519_sign pair.0 payload ≡ some sig
    pub accepts : prim.ed25519_accepts a.ed25519_public ≡ true
    pub verifies : prim.ed25519_verify a.ed25519_public payload sig ≡ true
    pub signature_size : length sig ≡ 64

  module _ (s : ServerIdentity) (a : CredentialPublic) (pair : Bytes × Bytes) (fresh : Fresh)
      (t1 : ℕ) (payload sig : Bytes) (h : IsSettled s a pair)
      (sign : CanSign a pair (successor u a fresh) payload sig)
      (live : is_expired a t1 ≡ false) where
    authority : IsAuthorized prim (successor u a fresh) sig [] t1 s.engine a payload
    unfolding generated_credential
    authority = record {
      signer_active = h.found_active;
      signer_live = live;
      none_validating = h.alone;
      next_version = ground (arith, h.newest);
      same_identity = sym h.owner;
      covers = rw h.owner sign.encodes;
      signed = sign.verifies;
      signature_size = sign.signature_size;
    }

    -- The engine once the successor is submitted.
    abbrev waiting : RotationEngine
    waiting =
        store s.engine (successor u a fresh).version
          (submitted s.engine.params (successor u a fresh) t1)

    signature_made :
        successor_signature prim params u pair.0 a.version (successor u a fresh) ≡ ok sig
    unfolding successor_signature sign_ed25519
    signature_made = rw (sign.encodes, sign.signs) refl

    submitted_engine :
        Rotation.submit_successor prim (successor u a fresh) sig [] t1 s.engine ≡ (ok tt, waiting)
    submitted_engine =
        submit_successor-accepts prim (successor u a fresh) sig [] t1 s.engine a payload h.valid
          authority sign.accepts

    waiting-IsValid : IsValid waiting
    waiting-IsValid =
        subst (λ o. IsValid o.1) submitted_engine
          (submit_successor-IsValid prim (successor u a fresh) sig [] t1 s.engine h.valid)

    -- What the submission of a tick returns and leaves.
    submission :
        ((submit_successor prim params u a fresh t1 s).0 ≡ ok tt)
        × ((submit_successor prim params u a fresh t1 s).1.engine ≡ waiting)
        × ((submit_successor prim params u a fresh t1 s).1.keys
            ≡ insert (a.version + 1) (fresh.0.0, fresh.1.0) s.keys)
        × ((submit_successor prim params u a fresh t1 s).1.loaded ≡ true)
    unfolding submit_successor persist save_keys
    submission = ground (arith, h.held, signature_made, submitted_engine, h.is_loaded)

    waits : validating waiting ≡ some (submitted s.engine.params (successor u a fresh) t1)
    waits =
        validating-store prim (successor u a fresh) sig [] t1 s.engine a payload h.valid authority
          sign.accepts

    signer_stays : active waiting ≡ some a
    signer_stays =
        active-store prim (successor u a fresh) sig [] t1 s.engine a payload h.valid authority
          sign.accepts

    -- The tick at which the rotation begins: the successor is submitted, and not yet promoted.
    first_tick :
        (s1 : ServerIdentity)
        → s1 ≡ (rotate_loaded prim params u fresh t1 s).1
        → rotation_due prim params u a t1 ≡ true
        → 2 ≤ params.rotation_duration
        → (s1.engine ≡ waiting)
          × (s1.keys ≡ insert (a.version + 1) (fresh.0.0, fresh.1.0) s.keys)
          × (s1.loaded ≡ true)
    unfolding rotate_loaded submit_due promote_due submitted
    first_tick s1 ticked due long =
        let (good, engine, keys, loaded) = submission in
        ground
          (arith, ticked, good, engine, keys, loaded, h.found_active, h.alone, h.same_params, waits)

    IsDue-after :
        (t2 : ℕ)
        → t1 + validation_period params ≤ t2
        → t2 < t1 + total_validity params
        → is_expired a t2 ≡ false
        → 2 ≤ params.rotation_duration
        → IsDue t2 waiting (submitted s.engine.params (successor u a fresh) t1) a
    unfolding submitted is_expired
    IsDue-after t2 reached live3 live2 long = record {
      found_validating = waits;
      found_active = signer_stays;
      reached = rw h.same_params (ground arith);
      live_validating = rw h.same_params (ground arith);
      live_active = live2;
    }

    -- A tick after the deadline promotes.
    second_tick :
        (s1 : ServerIdentity) (fresh2 : Fresh) (t2 : ℕ)
        → s1.engine ≡ waiting
        → IsDue t2 waiting (submitted s.engine.params (successor u a fresh) t1) a
        → 2 ≤ params.rotation_duration
        → ((rotate_loaded prim params u fresh2 t2 s1).1.engine ≡ (checkpoint t2 waiting).1)
          × ((rotate_loaded prim params u fresh2 t2 s1).1.keys ≡ s1.keys)
          × ((rotate_loaded prim params u fresh2 t2 s1).1.loaded ≡ s1.loaded)
    unfolding rotate_loaded submit_due promote_due persist save_keys
    second_tick s1 fresh2 t2 same due long =
        let ((changed, good), found, demotion, none_left) =
          checkpoint-promotes t2 waiting _ a waiting-IsValid due in
        ground (arith, same, good, waits, signer_stays, due.reached)

    -- A loaded identity that is read needs no key pair and no clock.
    loaded_rotates :
        (initial fresh2 : Fresh) (l t : ℕ) (s1 : ServerIdentity)
        → s1.loaded ≡ true
        → maybe_rotate prim params u initial l fresh2 t s1 ≡ rotate_loaded prim params u fresh2 t s1
    unfolding maybe_rotate ensure_loaded
    loaded_rotates initial fresh2 l t s1 is_loaded = rw is_loaded refl

    reads_keys :
        (initial : Fresh) (l : ℕ) (s1 : ServerIdentity) (c : CredentialPublic)
        (held : Bytes × Bytes)
        → s1.loaded ≡ true
        → active s1.engine ≡ some c
        → lookup c.version s1.keys ≡ some held
        → (active_keys prim params u initial l s1).0 ≡ ok held
    unfolding active_keys credential keys keys_of active_credential ensure_loaded
    reads_keys initial l s1 c held is_loaded found there = ground arith

-- A settled server identity rotates: where a tick comes once the rotation is due and before the ACTIVE
-- credential expires, and another one after the validation period and before either credential expires,
-- then after both ticks the successor is ACTIVE, its private keys are the ones that the server uses,
-- and the old credential is the FALLBACK; the rotation duration is two seconds or more.
pub two_ticks_rotate :
    (prim : Primitives) (params : RotationParams) (u : ℕ) (s : ServerIdentity)
    (a : CredentialPublic) (pair : Bytes × Bytes) (initial fresh initial2 fresh2 : Fresh)
    (l1 t1 l2 t2 l3 : ℕ) (payload sig : Bytes)
    → IsSettled prim params u s a pair
    → CanSign prim params u a pair (successor u a fresh) payload sig
    → rotation_due prim params u a t1 ≡ true
    → is_expired a t1 ≡ false
    → t1 + validation_period params ≤ t2
    → t2 < t1 + total_validity params
    → is_expired a t2 ≡ false
    → 2 ≤ params.rotation_duration
    → let s1 = (maybe_rotate prim params u initial l1 fresh t1 s).1 in
      let s2 = (maybe_rotate prim params u initial2 l2 fresh2 t2 s1).1 in
      (active s2.engine ≡ some (promoted (submitted params (successor u a fresh) t1) t2))
      × (fallback s2.engine ≡ some (demoted params a t2))
      × ((active_keys prim params u initial2 l3 s2).0 ≡ ok (fresh.0.0, fresh.1.0))
unfolding promoted submitted generated_credential
two_ticks_rotate prim params u s a pair initial fresh initial2 fresh2 l1 t1 l2 t2 l3 payload sig h
      sign due live reached before live2 long =
    let start =
      loaded_rotates prim params u s a pair fresh t1 payload sig h sign live initial fresh l1 t1 s
        h.is_loaded in
    let s1 = (maybe_rotate prim params u initial l1 fresh t1 s).1 in
    let (engine1, keys1, loaded1) =
      first_tick prim params u s a pair fresh t1 payload sig h sign live s1 (ap (λ o. o.1) start)
        due long in
    let goes =
      loaded_rotates prim params u s a pair fresh t1 payload sig h sign live initial2 fresh2 l2 t2
        s1 loaded1 in
    let ready =
      IsDue-after prim params u s a pair fresh t1 payload sig h sign live t2 reached before live2
        long in
    let (engine2, keys2, loaded2) =
      second_tick prim params u s a pair fresh t1 payload sig h sign live s1 fresh2 t2 engine1 ready
        long in
    let e1 = waiting prim params u s a pair fresh t1 payload sig h sign live in
    let (good, found, demotion, none_left) =
      checkpoint-promotes t2 e1 _ a
        (waiting-IsValid prim params u s a pair fresh t1 payload sig h sign live) ready in
    let s2 = (maybe_rotate prim params u initial2 l2 fresh2 t2 s1).1 in
    let is_active : active s2.engine
        ≡ some (promoted (submitted params (successor u a fresh) t1) t2) =
      ground (arith, goes, engine2, found, h.same_params) in
    (
      is_active,
      ground (arith, goes, engine2, demotion, h.same_params),
      reads_keys prim params u s a pair fresh t1 payload sig h sign live initial2 l3 s2 _
          (fresh.0.0, fresh.1.0) (ground (arith, goes, loaded2, loaded1)) is_active
          (ground (
            arith,
            goes,
            keys2,
            keys1,
            lookup-insert (a.version + 1) (a.version + 1) (fresh.0.0, fresh.1.0) s.keys,
          )),
    )
