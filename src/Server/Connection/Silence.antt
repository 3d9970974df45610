-- ===== src/Server/Connection/Silence.antt =====
-- server/sih_server/tunnel2.py: what a message that is not authenticated leaves behind, on either
-- channel.
use secupload.Base.{ℕ, ◌≡◌, refl, arith, true, Bytes, Option-cases, inl, inr, ◌∙◌, ap}
use secupload.Base.Result.{Result, ok, err, Error, ◌>>=◌}
use secupload.Framing.{send_frame}
use secupload.Server.Registry.{get_credential}
use secupload.Models.{CredentialPublic, RotationParams}
use secupload.Crypto.{Primitives}
use secupload.Protocol.Envelope
use secupload.Protocol.Envelope.{Envelope, parse_envelope}
use secupload.Server.Auth.{State, authenticate, verify_sender, usable_credential, judge, accept}
use secupload.Server.Database.{Database, record_event}
use secupload.Server.Identity.{ensure_loaded, credential, keys, active_keys}
use secupload.Server.Connection.{
  World, Setting, Draws, Handled, ◌then◌, authenticated, database, server_credential, server_keys,
  signed_answer, sealed_reply, known_sender, channel_relay,
}
use secupload.Server.Connection.Control.{handle_authenticated}
use secupload.Server.Connection.Relay.{
  serve, reply_of, relay_envelope, reply_envelope, handle_relay,
}
use secupload.Server.Tunnel2.{Reply}

-- The tables of a database, up to its audit log.
abbrev SameTables : Database → Database → Type 0
SameTables db db1 = record db1 { audit_events = db.audit_events } ≡ db

-- Only the audit log and the replay cache differ: the files, every table, and the server's engine, keys
-- and key file are the same.
abbrev pub OnlyLogged : World → World → Type 0
OnlyLogged w w1 =
    record w1 {
      replay = w.replay;
      identity = record w1.identity {
        db = record (database w1) { audit_events = (database w).audit_events };
      };
    }
    ≡ w

judge-SameTables :
    (r : Result (Unit {0})) (env : Envelope) (cred : CredentialPublic) (s : State)
    → SameTables s.db (judge r env cred s).1.db
unfolding judge accept record_event
judge-SameTables (ok u) env cred s = ground arith
judge-SameTables (err x) env cred s = ground arith

verify_sender-SameTables :
    (prim : Primitives) (params : RotationParams) (env : Envelope) (now : ℕ) (s : State)
    → SameTables s.db (verify_sender prim params env now s).1.db
unfolding verify_sender record_event
verify_sender-SameTables prim params env now s =
    elim (Option-cases (usable_credential params s.db env now)) [
      | inl absent ↦ rw (absent, verify_sender) refl
      | inr (cred, found) ↦ rw (found, verify_sender) (judge-SameTables _ env cred s)
    ]

authenticate-SameTables :
    (prim : Primitives) (params : RotationParams) (env : Envelope) (now : ℕ) (s : State)
    → SameTables s.db (authenticate prim params env now s).1.db
unfolding authenticate record_event
authenticate-SameTables prim params env now s =
    ground (arith, verify_sender-SameTables prim params env now)

authenticated-OnlyLogged :
    (cfg : Setting) (draws : Draws) (env : Envelope) (w : World)
    → OnlyLogged w (authenticated cfg draws env w).1
authenticated-OnlyLogged cfg draws env w =
    let same =
      authenticate-SameTables cfg.prim cfg.params env draws.auth_now
        (record { replay = w.replay; db = database w }) in
    ap (λ db. record w { identity = record w.identity { db = db } }) same

-- A step and the rest of it leave the state, where each does.
then-same :
    {A B : Type 0} (first : Handled A) (rest : A → World → Handled B) (w : World)
    → first.1 ≡ w
    → ((a : A) → (rest a w).1 ≡ w)
    → (first then rest).1 ≡ w
then-same (ok a, w1) rest w same left = ap (λ v. (rest a v).1) same ∙ left a
then-same (err x, w1) rest w same left = same

-- A loaded identity is read without a change.
server_credential-same :
    (cfg : Setting) (draws : Draws) (w : World)
    → w.identity.loaded ≡ true
    → (server_credential cfg draws w).1 ≡ w
unfolding credential ensure_loaded
server_credential-same cfg draws w loaded = rw (loaded, credential, ensure_loaded) refl

server_keys-same :
    (cfg : Setting) (draws : Draws) (w : World)
    → w.identity.loaded ≡ true
    → (server_keys cfg draws w).1 ≡ w
unfolding active_keys credential keys ensure_loaded
server_keys-same cfg draws w loaded = ground arith

signed_answer-same :
    (cfg : Setting) (draws : Draws) (make : Bytes → Envelope) (payload : Result Bytes) (w : World)
    → w.identity.loaded ≡ true
    → (signed_answer cfg draws make payload w).1 ≡ w
unfolding signed_answer
signed_answer-same cfg draws make payload w loaded =
    then-same (payload, w) _ w refl
      (λ b.
        then-same (server_keys cfg draws w) _ w (server_keys-same cfg draws w loaded)
          (λ pair. refl))

reply_envelope-same :
    (cfg : Setting) (draws : Draws) (reply : Reply) (req : Envelope) (own client : CredentialPublic)
    (w : World)
    → w.identity.loaded ≡ true
    → (reply_envelope cfg draws reply req own client w).1 ≡ w
unfolding reply_envelope sealed_reply
reply_envelope-same cfg draws (Reply.message b) req own client w loaded =
    signed_answer-same cfg draws _ _ w loaded
reply_envelope-same cfg draws (Reply.chunk u index text) req own client w loaded =
    signed_answer-same cfg draws _ _ w loaded

reply_of-same :
    (cfg : Setting) (draws : Draws) (r : Result Reply) (w : World)
    → (reply_of cfg draws (r, w)).1 ≡ w
unfolding reply_of
reply_of-same cfg draws (ok reply) w = refl
reply_of-same cfg draws (err x) w = ground arith

-- Once `serve` has ended, the rest of the relay's handler changes nothing.
relay_envelope-same :
    (cfg : Setting) (draws : Draws) (env : Envelope) (w : World)
    → (serve cfg draws env w).1.identity.loaded ≡ true
    → (relay_envelope cfg draws env w).1 ≡ (serve cfg draws env w).1
unfolding relay_envelope
relay_envelope-same cfg draws env w loaded =
    let w1 = (serve cfg draws env w).1 in
    then-same (reply_of cfg draws (serve cfg draws env w)) _ w1
      (reply_of-same cfg draws (serve cfg draws env w).0 w1)
      (λ reply.
        then-same (server_credential cfg draws w1) _ w1 (server_credential-same cfg draws w1 loaded)
          (λ own.
            then-same
              (
                known_sender
                    (get_credential (database w1) env.sender_uuid env.sender_credential_version),
                w1,
              )
              (λ client w3. reply_envelope cfg draws reply env own client w3 then λ out w4.
                (Envelope.encode out >>= send_frame channel_relay, w4))
              w1 refl
              (λ client.
                then-same (reply_envelope cfg draws reply env own client w1)
                  (λ out w4. (Envelope.encode out >>= send_frame channel_relay, w4)) w1
                  (reply_envelope-same cfg draws reply env own client w1 loaded) (λ out. refl))))

-- A message that is not authenticated, whatever its handler on the control channel: there it ends in
-- the authenticator's exception, and on the relay channel in an encrypted answer or an exception.
-- Where the server's identity is loaded, neither changes anything but the audit log and the replay
-- cache: no table, no file, and nothing of the server's credentials and keys.
pub unauthenticated-OnlyLogged :
    (cfg : Setting) (draws : Draws) (ctype : ℕ) (body : Bytes) (env : Envelope)
    (handler : Envelope → CredentialPublic → Bytes → World → Handled Bytes) (w : World) (x : Error)
    → w.identity.loaded ≡ true
    → parse_envelope body ≡ ok env
    → (authenticated cfg draws env w).0 ≡ err x
    → ((handle_authenticated cfg draws ctype body handler w).0 ≡ err x)
      × OnlyLogged w (handle_authenticated cfg draws ctype body handler w).1
      × OnlyLogged w (handle_relay cfg draws body w).1
unfolding handle_authenticated serve handle_relay
unauthenticated-OnlyLogged cfg draws ctype body env handler w x loaded parsed denied =
    let same = authenticated-OnlyLogged cfg draws env w in
    let served : (serve cfg draws env w).1 ≡ (authenticated cfg draws env w).1 =
      rw (denied, serve) refl in
    let relayed = relay_envelope-same cfg draws env w (rw served loaded) ∙ served in
    (
      rw (parsed, handle_authenticated, denied) refl,
      rw (parsed, handle_authenticated, denied) same,
      rw (parsed, handle_relay, relayed) same,
    )
