-- ===== src/Proxy/Relay.antt =====
-- proxy/sih_proxy/tunnel.py: each direction of the relay ends, and forwards only what its test passed.
use secupload.Base.{
  ℕ, zero, suc, ◌<◌, ◌≡◌, refl, arith, Bool, List, [], ◌∷◌, length, Bytes, Option, some, inl, inr,
}
use secupload.Base.Result.{ok, Result-cases, >>=-eq-ok, ◌>>=◌}
use secupload.Crypto.{Primitives}
use secupload.Framing.{recv_frame, send_frame, joined}
use secupload.Server.Connection.Loop.{recv_frame-shorter}
use secupload.Proxy.{RegistryCache, pump, accepts, forwarded}

-- Each frame is one that came, passed the validator at its turn, and was sent on as it was.
abbrev pub AllAccepted :
    Primitives → (ℕ → ℕ) → (ℕ → Bool) → Option RegistryCache → ℕ → List Bytes → List Bytes → Type 0
AllAccepted prim clock writable cache turn parts [] = Unit
AllAccepted prim clock writable cache turn parts (frame ∷ frames) =
    (channel : ℕ) × (payload : Bytes) × (left : List Bytes) × (recv_frame parts
      ≡ ok (channel, payload, left))
    × (accepts prim clock writable cache turn channel payload ≡ ok tt)
    × (send_frame channel payload ≡ ok frame)
    × AllAccepted prim clock writable cache (suc turn) left frames

module _ (prim : Primitives) (clock : ℕ → ℕ) (writable : ℕ → Bool)
    (cache : Option RegistryCache) where
  forwarded-sent :
      (turn channel : ℕ) (payload frame : Bytes)
      → (accepts prim clock writable cache turn channel payload >>= λ _.
          forwarded prim clock writable turn channel payload)
        ≡ ok frame
      → (accepts prim clock writable cache turn channel payload ≡ ok tt)
        × (send_frame channel payload ≡ ok frame)
  forwarded-sent turn channel payload frame h =
      let (value, passed, sent) =
        >>=-eq-ok (accepts prim clock writable cache turn channel payload) _ h in
      (passed, ground arith)

  -- A fuel of one more than the bytes that come is enough for one direction of the relay to end,
  -- whatever comes in whatever pieces; and it has forwarded, in their order and unchanged, only frames
  -- that came from the first on and that its validator, where it has one, accepted.
  pub pump-forwards :
      (fuel turn : ℕ) (parts : List Bytes)
      → length (joined parts) < fuel
      → (frames : List Bytes) × (pump prim clock writable cache fuel turn parts ≡ some frames)
        × AllAccepted prim clock writable cache turn parts frames
  unfolding pump
  pump-forwards zero turn parts h = absurd (omega arith)
  pump-forwards (suc fuel) turn parts h = elim (Result-cases (recv_frame parts)) [
    | inr (x, bad) ↦ ([], rw (bad, pump) refl, tt)
    | inl ((channel, payload, left), got) ↦
        elim (Result-cases (
          accepts prim clock writable cache turn channel payload >>= λ _.
          forwarded prim clock writable turn channel payload)) [
            | inr (x, bad) ↦ ([], rw (got, pump, bad) refl, tt)
            | inl (frame, good) ↦
                let (frames, ended, rest) =
                  pump-forwards fuel (suc turn) left
                    (omega (arith, recv_frame-shorter parts left channel payload got)) in
                let (passed, sent) = forwarded-sent turn channel payload frame good in
                (
                  frame ∷ frames,
                  rw (got, pump, good, ended) refl,
                  (channel, payload, left, got, passed, sent, rest),
                )
          ]
  ]
