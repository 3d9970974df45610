-- ===== src/Server/Connection/Loop.antt =====
-- server/sih_server/tunnel2.py: the loop over the frames of a connection. Every turn reads a frame's
-- header at least, so a fuel of one more than the bytes that come is enough.
use secupload.Base.{
  ℕ, zero, suc, ◌+◌, ◌-◌, ◌<◌, ◌==◌, ◌≡◌, refl, arith, ltb, if◌then◌else◌, List, [], ◌∷◌, ◌++◌,
  length, drop, Bytes, Option, none, some, length-append, length-drop, inl, inr, Bool-cases,
}
use secupload.Base.Result.{ok, err, Error, >>=-eq-ok, Result-cases}
use secupload.Codec.Decoder
use secupload.Framing.{recv_frame, recv_exact, read_header, joined, max_frame_size}
use secupload.Server.Connection.{World, Setting, Draws, Handled, channel_control, channel_relay}
use secupload.Server.Connection.Control.{handle_control}
use secupload.Server.Connection.Relay.{handle_relay}

-- How `run` ends: its exception, the frames that were sent before it, and the shared state.
pub record Ended : Type 0 where
  pub raised : Error
  pub sent : List Bytes
  pub world : World

-- What `run` does with the exception that ends the loop: it logs a closed connection or an error of the
-- protocol, and lets the others out.
data Ending : Type 0 where
  closed protocol uncaught : Ending

abbrev ending : Error → Ending
ending Error.frame_error = Ending.closed
ending Error.os_error = Ending.closed
ending Error.tunnel2_error = Ending.protocol
ending x = Ending.uncaught

module _ (cfg : Setting) (draws : ℕ → Draws) where
  -- The handler of a channel.
  unfoldable handle_frame : ℕ → ℕ → Bytes → World → Handled Bytes
  handle_frame turn channel payload w =
      if channel == channel_control
      then handle_control cfg (draws turn) payload w
      else if channel == channel_relay
      then handle_relay cfg (draws turn) payload w
      else (err Error.tunnel2_error, w)

  -- `run` on fuel; the turns count up, each with its own draws. `none` is out of fuel.
  unfoldable pub run : ℕ → ℕ → List Bytes → List Bytes → World → Option Ended
  unfolding handle_frame
  run zero turn parts sent w = none
  run (suc fuel) turn parts sent w = elim (recv_frame parts) [
    | err x ↦ some (record { raised = x; sent = sent; world = w })
    | ok (channel, payload, left) ↦
        let (r, w1) = handle_frame turn channel payload w in
        elim r [
          | err x ↦ some (record { raised = x; sent = sent; world = w1 })
          | ok frame ↦ run fuel (suc turn) left (sent ++ frame ∷ []) w1
        ]
  ]

-- What is asked for is taken from what came.
recv_exact-length :
    (n : ℕ) (parts left : List Bytes) (b : Bytes)
    → recv_exact n parts ≡ ok (b, left)
    → length (joined parts) ≡ n + length (joined left)
unfolding recv_exact joined
recv_exact-length zero parts left b h = ground arith
recv_exact-length (suc n) [] left b h = absurd (ground arith)
recv_exact-length (suc n) ([] ∷ parts) left b h = absurd (ground arith)
recv_exact-length (suc n) ((x ∷ part) ∷ parts) left b h = elim (Bool-cases (ltb n (length part))) [
  | inl cut ↦ ground (
    arith,
    cut,
    length-append part (joined parts),
    length-append (drop n part) (joined parts),
    length-drop n part,
  )
  | inr whole ↦ elim (Result-cases (recv_exact (n - length part) parts)) [
    | inl ((b1, left1), got) ↦ ground (
      arith,
      whole,
      got,
      length-append part (joined parts),
      recv_exact-length (n - length part) parts left1 b1 got,
    )
    | inr (x, bad) ↦ absurd (ground arith)
  ]
]

-- A frame takes its header at least.
pub recv_frame-shorter :
    (parts left : List Bytes) (channel : ℕ) (payload : Bytes)
    → recv_frame parts ≡ ok (channel, payload, left)
    → length (joined left) < length (joined parts)
unfolding recv_frame
recv_frame-shorter parts left channel payload h =
    let ((head, rest), got, k) = >>=-eq-ok (recv_exact 5 parts) _ h in
    let ((c, size), fields, m) = >>=-eq-ok (Decoder.decode read_header head) _ k in
    elim (Bool-cases (ltb max_frame_size size)) [
      | inl large ↦ absurd (ground arith)
      | inr small ↦ elim (Result-cases (recv_exact size rest)) [
        | inl ((body, after), read) ↦ ground (
          arith,
          recv_exact-length 5 parts rest head got,
          recv_exact-length size rest after body read,
        )
        | inr (x, bad) ↦ absurd (ground arith)
      ]
    ]

-- The loop of a connection ends, whatever bytes come in whatever pieces and whatever is drawn: a fuel of
-- one more than the number of the bytes gives its exception, what it sent, and the state that it leaves.
pub run-ends :
    (cfg : Setting) (draws : ℕ → Draws) (fuel turn : ℕ) (parts sent : List Bytes) (w : World)
    → length (joined parts) < fuel
    → (e : Ended) × (run cfg draws fuel turn parts sent w ≡ some e)
unfolding run
run-ends cfg draws zero turn parts sent w h = absurd (omega arith)
run-ends cfg draws (suc fuel) turn parts sent w h = elim (Result-cases (recv_frame parts)) [
  | inr (x, bad) ↦ (record { raised = x; sent = sent; world = w }, rw (bad, run) refl)
  | inl ((channel, payload, left), got) ↦
      let w1 = (handle_frame cfg draws turn channel payload w).1 in
      elim (Result-cases (handle_frame cfg draws turn channel payload w).0) [
        | inr (x, bad) ↦ (record { raised = x; sent = sent; world = w1 }, rw (got, run, bad) refl)
        | inl (frame, good) ↦
            let (e, ended) =
              run-ends cfg draws fuel (suc turn) left (sent ++ frame ∷ []) w1
                (omega (arith, recv_frame-shorter parts left channel payload got)) in
            (e, rw (got, run, good) ended)
      ]
]
