-- ===== src/Server/Connection/Answers.antt =====
-- server/sih_server/tunnel2.py: the envelopes that a connection answers with, and the functions that
-- make them under a given private key.
use secupload.Base.{ℕ, ◌≡◌, refl, arith, Bytes}
use secupload.Base.Int.{pos}
use secupload.Base.Result.{Result, ok, err}
use secupload.Protocol.Envelope
use secupload.Protocol.Envelope.{Envelope}
use secupload.Server.Tunnel2.{outgoing, build_outgoing}
use secupload.Server.Connection.{
  World, Setting, Draws, Handled, ◌then◌, server_keys, signed_answer, sealed_reply,
}

-- A step that returns is a first step that returned, and the rest from where it ended.
then-eq-ok :
    {A B : Type 0} (first : Handled A) (rest : A → World → Handled B) {b : B}
    → (first then rest).0 ≡ ok b
    → (a : A) × (first.0 ≡ ok a) × ((rest a first.1).0 ≡ ok b)
then-eq-ok (ok a, w) rest h = (a, refl, h)
then-eq-ok (err x, w) rest h = ground arith

-- An envelope that is signed has a payload that was made, and the signature of the active private key
-- of the server.
pub signed_answer-ok :
    (cfg : Setting) (draws : Draws) (make : Bytes → Envelope) (payload : Result Bytes) (w : World)
    (reply : Envelope)
    → (signed_answer cfg draws make payload w).0 ≡ ok reply
    → (b : Bytes) × (pair : Bytes × Bytes) × (payload ≡ ok b)
      × ((server_keys cfg draws w).0 ≡ ok pair)
      × (Envelope.sign cfg.prim (make b) pair.0 ≡ ok reply)
unfolding signed_answer
signed_answer-ok cfg draws make payload w reply h =
    let (b, made, h1) = then-eq-ok (payload, w) _ h in
    let (pair, held, signed) = then-eq-ok (server_keys cfg draws w) _ h1 in
    (b, pair, made, held, signed)

-- An answer that a connection makes is the one that `build_outgoing` makes under the active private
-- key of the server.
pub sealed_reply-build_outgoing :
    (cfg : Setting) (draws : Draws) (req reply : Envelope) (version : ℕ) (inner client : Bytes)
    (w : World)
    → (sealed_reply cfg draws req version inner client w).0 ≡ ok reply
    → (pair : Bytes × Bytes) × ((server_keys cfg draws w).0 ≡ ok pair)
      × (build_outgoing cfg.prim draws.ephemeral pair.0 req cfg.server_uuid version inner client
            draws.nonce
            (pos draws.now)
          ≡ ok reply)
unfolding sealed_reply build_outgoing outgoing
sealed_reply-build_outgoing cfg draws req reply version inner client w h =
    let (payload, pair, made, held, signed) = signed_answer-ok cfg draws _ _ w reply h in
    (pair, held, rw (made, build_outgoing) signed)
