-- ===== src/Framing.antt =====
-- shared/sih_shared/framing.py: the frames of a connection. A socket's input is the list of the pieces
-- that `recv` finds, the end of the list or an empty piece being the end of the stream; an OSError
-- of the socket, which the program turns into a FrameError, is left out.
use secupload.Base.{
  ℕ, zero, suc, ◌*◌, ◌-◌, ◌≤◌, ◌<◌, ◌≡◌, refl, arith, ltb, if◌then◌else◌, false, List, [], ◌∷◌,
  ◌++◌, length, take, drop, Bytes, All, length-append, length-drop, take-append, drop-append,
  append_assoc, Bool-cases, inl, inr, ◌∙◌, sym, ap, ltb→lt,
}
use secupload.Base.Result
use secupload.Base.Result.{Result, ok, err, Error, >>=-eq-ok, ok-injective}
use secupload.Codec.Decoder
use secupload.Codec.Decoder.{Decoder, ◌>>=◌, pure}
use secupload.Codec.Encoder
use secupload.Codec.Encoder.{Encoder, ◌≫◌}
use secupload.Codec.Mirrors.{Mirrors-then, Mirrors-last, decode-finish, u8-Mirrors, u32-Mirrors}
use secupload.Codec.Sizes.{Sized-then, u8-Sized, u32-Sized}

abbrev pub max_frame_size : ℕ
max_frame_size = 64 * 1024 * 1024

abbrev pub header_size : ℕ
header_size = 5

-- The format `>BI`.
unfoldable frame_header : ℕ → ℕ → Encoder
frame_header channel size = Encoder.u8 channel ≫ Encoder.u32 size

-- What `send_frame` gives to the socket.
unfoldable pub send_frame : ℕ → Bytes → Result Bytes
unfolding frame_header
send_frame channel payload =
    if ltb max_frame_size (length payload)
    then err Error.frame_error
    else Result.◌>>=◌ (Encoder.finish (frame_header channel (length payload)))
        λ h. ok (h ++ payload)

-- `_recv_exact`, and the pieces that are left; a piece longer than what is asked for is cut.
unfoldable pub recv_exact : ℕ → List Bytes → Result (Bytes × List Bytes)
recv_exact zero parts = ok ([], parts)
recv_exact (suc n) [] = err Error.frame_error
recv_exact (suc n) ([] ∷ parts) = err Error.frame_error
recv_exact (suc n) ((x ∷ part) ∷ parts) =
    let rest = recv_exact (n - length part) parts in
    if ltb n (length part)
    then ok (x ∷ take n part, drop n part ∷ parts)
    else Result.◌>>=◌ rest λ (b, left). ok (x ∷ (part ++ b), left)

unfoldable pub read_header : Decoder (ℕ × ℕ)
read_header = do channel ← Decoder.u8; size ← Decoder.u32; pure (channel, size)

-- `recv_frame`: the channel, the payload, and the pieces that are left.
unfoldable pub recv_frame : List Bytes → Result (ℕ × Bytes × List Bytes)
unfolding recv_exact read_header
recv_frame parts = Result.◌>>=◌ (recv_exact header_size parts) λ (h, left).
    Result.◌>>=◌ (Decoder.decode read_header h) λ (channel, size).
      if ltb max_frame_size size
      then err Error.frame_error
      else Result.◌>>=◌ (recv_exact size left) λ (payload, rest). ok (channel, payload, rest)

unfoldable pub joined : List Bytes → Bytes
joined [] = []
joined (b ∷ bs) = b ++ joined bs

-- No piece is empty.
abbrev NonEmpty : Bytes → Type 0
NonEmpty b = 0 < length b

take-short : (n : ℕ) (a b : Bytes) → n ≤ length a → take n (a ++ b) ≡ take n a
take-short zero a b h = refl
take-short (suc n) [] b h = absurd (omega arith)
take-short (suc n) (x ∷ a) b h = ap (◌∷◌ x) (take-short n a b (omega arith))

drop-short : (n : ℕ) (a b : Bytes) → n ≤ length a → drop n (a ++ b) ≡ drop n a ++ b
drop-short zero a b h = refl
drop-short (suc n) [] b h = absurd (omega arith)
drop-short (suc n) (x ∷ a) b h = drop-short n a b (omega arith)

take-long : (n : ℕ) (a b : Bytes) → length a ≤ n → take n (a ++ b) ≡ a ++ take (n - length a) b
take-long n [] b h = ground arith
take-long zero (x ∷ a) b h = absurd (omega arith)
take-long (suc n) (x ∷ a) b h =
    let same : suc n - suc (length a) ≡ n - length a = omega arith in
    rw same (ap (◌∷◌ x) (take-long n a b (omega arith)))

drop-long : (n : ℕ) (a b : Bytes) → length a ≤ n → drop n (a ++ b) ≡ drop (n - length a) b
drop-long n [] b h = ground arith
drop-long zero (x ∷ a) b h = absurd (omega arith)
drop-long (suc n) (x ∷ a) b h =
    let same : suc n - suc (length a) ≡ n - length a = omega arith in
    rw same (drop-long n a b (omega arith))

-- Asking for what has come gives its first bytes and leaves the others, however it was cut.
recv_exact-joined :
    (n : ℕ) (parts : List Bytes)
    → All NonEmpty parts
    → n ≤ length (joined parts)
    → (left : List Bytes) × (recv_exact n parts ≡ ok (take n (joined parts), left))
      × (joined left ≡ drop n (joined parts))
      × All NonEmpty left
unfolding recv_exact joined
recv_exact-joined zero parts full enough = (parts, refl, refl, full)
recv_exact-joined (suc n) [] full enough = absurd (omega arith)
recv_exact-joined (suc n) ([] ∷ parts) full enough = absurd (omega (arith, full.0))
recv_exact-joined (suc n) ((x ∷ part) ∷ parts) full enough =
    elim (Bool-cases (ltb n (length part))) [
      | inl cut ↦
          let short = ltb→lt n (length part) cut in
          (
            drop n part ∷ parts,
            rw (cut, take-short n part (joined parts) (omega (arith, short))) refl,
            sym (drop-short n part (joined parts) (omega (arith, short))),
            (omega (arith, short, length-drop n part), full.1),
          )
      | inr whole ↦
          let fits : length part ≤ n = ground arith in
          let (left, got, kept, rest) =
            recv_exact-joined (n - length part) parts full.1
              (omega (arith, enough, length-append part (joined parts))) in
          (
            left,
            rw (whole, got, take-long n part (joined parts) fits) refl,
            kept ∙ sym (drop-long n part (joined parts) fits),
            rest,
          )
    ]

recv_exact-exactly :
    (b after : Bytes) (parts : List Bytes)
    → All NonEmpty parts
    → joined parts ≡ b ++ after
    → (left : List Bytes) × (recv_exact (length b) parts ≡ ok (b, left))
      × (joined left ≡ after)
      × All NonEmpty left
recv_exact-exactly b after parts full stream =
    let (left, got, kept, rest) =
      recv_exact-joined (length b) parts full (rw stream (omega (arith, length-append b after))) in
    let first : take (length b) (joined parts) ≡ b =
      ap (take (length b)) stream ∙ take-append (length b) b after refl in
    let last : drop (length b) (joined parts) ≡ after =
      ap (drop (length b)) stream ∙ drop-append (length b) b after refl in
    (left, got ∙ ap (λ x. ok (x, left)) first, kept ∙ last, rest)

header_round_trip :
    (channel size : ℕ) (h : Bytes)
    → Encoder.finish (frame_header channel size) ≡ ok h
    → (Decoder.decode read_header h ≡ ok (channel, size)) × (length h ≡ 5)
unfolding frame_header read_header Encoder.finish
header_round_trip channel size h made = (
  decode-finish (Mirrors-then _ (u8-Mirrors channel) (Mirrors-last _ (u32-Mirrors size))) made,
  (Sized-then (u8-Sized channel) (u32-Sized size)).size [] h made,
)

recv_frame-lem :
    (channel size : ℕ) (h payload : Bytes) (parts mid left : List Bytes)
    → recv_exact 5 parts ≡ ok (h, mid)
    → Decoder.decode read_header h ≡ ok (channel, size)
    → ltb max_frame_size size ≡ false
    → recv_exact size mid ≡ ok (payload, left)
    → recv_frame parts ≡ ok (channel, payload, left)
unfolding recv_frame
recv_frame-lem channel size h payload parts mid left got read small came =
    rw (got, read, small, came) refl

-- Where a frame can be sent, the peer that receives its bytes, in whatever nonempty pieces and with
-- whatever bytes after them, reads its channel and payload, and the bytes after it are left.
pub frame_round_trip :
    (channel : ℕ) (payload src after : Bytes) (parts : List Bytes)
    → send_frame channel payload ≡ ok src
    → All NonEmpty parts
    → joined parts ≡ src ++ after
    → (left : List Bytes) × (recv_frame parts ≡ ok (channel, payload, left)) × (joined left ≡ after)
unfolding send_frame
frame_round_trip channel payload src after parts sent full stream =
    elim (Bool-cases (ltb max_frame_size (length payload))) [
      | inl large ↦ absurd (ground arith)
      | inr small ↦
          let (h, made, whole) =
            >>=-eq-ok (Encoder.finish (frame_header channel (length payload)))
              (λ h. ok (h ++ payload)) (ground arith) in
          let (read, size) = header_round_trip channel (length payload) h made in
          let cut : joined parts ≡ h ++ (payload ++ after) =
            stream
            ∙ ap (λ b. b ++ after) (sym (ok-injective whole))
            ∙ append_assoc h payload after in
          let (mid, got, kept, full1) = recv_exact-exactly h (payload ++ after) parts full cut in
          let (left, came, last, _) = recv_exact-exactly payload after mid full1 kept in
          (
            left,
            recv_frame-lem channel (length payload) h payload parts mid left
                (ap (λ n. recv_exact n parts) (sym size) ∙ got) read small came,
            last,
          )
    ]
