-- ===== src/Codec/Mirrors.antt =====
-- A decoder mirrors an encoder at a value: whatever the encoder appends, the decoder reads back, and
-- it leaves what follows. The round trips of the messages are built from the rules below.
use secupload.Base.{
  ℕ, ◌^◌, ◌≡◌, refl, arith, ltb, ltb→lt, [], ◌∷◌, ◌++◌, length, length-append, replicate,
  take-append, drop-append, Bytes, Option, none, some, sym, ap, ◌∙◌, append_assoc, append-nil,
  Bool-cases, inl, inr,
}
use secupload.Base.Int.{ℤ}
use secupload.Base.Result
use secupload.Base.Result.{Result, ok, err, Error, >>=-eq-ok, ok-injective}
use secupload.Codec.Digits.{
  to_bytes, from_bytes, to_signed, of_signed, fits_i64, length-to_bytes, from_bytes-to_bytes,
  of_signed-to_signed, to_signed-lt,
}
use secupload.Codec.Utf8
use secupload.Codec.Utf8.{Str, decode-encode}
use secupload.Codec.Encoder
use secupload.Codec.Encoder.{Encoder, ◌≫◌}
use secupload.Codec.Decoder
use secupload.Codec.Decoder.{Decoder, ◌>>=◌, pure}

-- What the decoder makes of the bytes `p`, whatever comes after them.
abbrev Reads : {A : Type 0} → Decoder A → Bytes → A → Type 0
Reads d p a = (rest : Bytes) → d (p ++ rest) ≡ ok (a, rest)

pub record Mirrors {A : Type 0} (e : Encoder) (d : Decoder A) (a : A) : Type 0 where
  pub part : (buf out : Bytes) → e buf ≡ ok out → (p : Bytes) × (out ≡ buf ++ p) × Reads d p a

pub bind-ok :
    {A B : Type 0} (d : Decoder A) (k : A → Decoder B) {src rest : Bytes} {a : A}
    → d src ≡ ok (a, rest)
    → (d >>= k) src ≡ k a rest
unfolding ◌>>=◌
bind-ok d k e = rw (e, ◌>>=◌)

Reads-bind :
    {A B : Type 0} (d : Decoder A) (k : A → Decoder B) (p q : Bytes) (a : A) (b : B)
    → Reads d p a
    → Reads (k a) q b
    → Reads (d >>= k) (p ++ q) b
unfolding ◌>>=◌
Reads-bind d k p q a b h g rest = rw (append_assoc, h (q ++ rest), ◌>>=◌) (g rest)

-- One call after another.
pub Mirrors-then :
    {A B : Type 0} {e f : Encoder} {d : Decoder A} (k : A → Decoder B) {a : A} {b : B}
    → Mirrors e d a
    → Mirrors f (k a) b
    → Mirrors (e ≫ f) (d >>= k) b
unfolding ◌≫◌
Mirrors-then {e} {f} {d} k {a} {b} m n = record {
  part = λ buf out h.
      let (mid, hm, g) = >>=-eq-ok (e buf) f h in
      let (p, ep, rp) = m.part buf mid hm in
      let (q, eq, rq) = n.part mid out g in
      (p ++ q, eq ∙ ap (λ l. l ++ q) ep ∙ append_assoc buf p q, Reads-bind d k p q a b rp rq);
}

-- The last call, followed by the construction of the result.
pub Mirrors-last :
    {A B : Type 0} {e : Encoder} {d : Decoder A} (g : A → B) {a : A}
    → Mirrors e d a
    → Mirrors e (d >>= λ x. pure (g x)) (g a)
unfolding ◌>>=◌ pure
Mirrors-last {d} g m = record {
  part = λ buf out h. let (p, ep, rp) = m.part buf out h in (p, ep, λ rest. rw (rp rest, ◌>>=◌));
}

-- A whole message: what the encoder produced, the decoder reads.
pub decode-finish :
    {A : Type 0} {e : Encoder} {d : Decoder A} {a : A} {src : Bytes}
    → Mirrors e d a
    → Encoder.finish e ≡ ok src
    → Decoder.decode d src ≡ ok a
unfolding Encoder.finish Decoder.decode
decode-finish {d} {a} {src} m h =
    let (p, ep, rp) = m.part [] src h in
    let eq : d src ≡ ok (a, []) = rw (ep, ← append-nil p) (rp []) in rw (eq, Decoder.decode)

pub take_bytes-Reads : (p : Bytes) (n : ℕ) → length p ≡ n → Reads (Decoder.take_bytes n) p p
unfolding Decoder.take_bytes
take_bytes-Reads p n h rest =
    ground (arith, length-append p rest, take-append n p rest h, drop-append n p rest h)

pub take_bytes-Mirrors :
    (p : Bytes) (n : ℕ) → length p ≡ n → Mirrors (λ buf. ok (buf ++ p)) (Decoder.take_bytes n) p
take_bytes-Mirrors p n h = record {
  part = λ buf out e. (p, sym (ok-injective e), take_bytes-Reads p n h);
}

-- Numbers of a fixed width.
number-Mirrors :
    (n v : ℕ)
    → Mirrors
        (Encoder.write (Encoder.pack n v))
        (Decoder.take_bytes n >>= λ b. pure (from_bytes b))
        v
unfolding Encoder.write Encoder.pack pure
number-Mirrors n v = record {
  part = λ buf out h. elim (Bool-cases (ltb v (256 ^ n))) [
    | inl fits ↦ (
      to_bytes n v,
      ground arith,
      λ rest.
          bind-ok (Decoder.take_bytes n) _
            (take_bytes-Reads (to_bytes n v) n (length-to_bytes n v) rest)
          ∙ ap (λ x. ok (x, rest)) (from_bytes-to_bytes n v (ltb→lt _ _ fits)),
    )
    | inr wide ↦ absurd (ground arith)
  ];
}

pub u8-Mirrors : (v : ℕ) → Mirrors (Encoder.u8 v) Decoder.u8 v
unfolding Encoder.u8 Decoder.u8
u8-Mirrors v = number-Mirrors 1 v

u16-Mirrors : (v : ℕ) → Mirrors (Encoder.u16 v) Decoder.u16 v
unfolding Encoder.u16 Decoder.u16
u16-Mirrors v = number-Mirrors 2 v

pub u32-Mirrors : (v : ℕ) → Mirrors (Encoder.u32 v) Decoder.u32 v
unfolding Encoder.u32 Decoder.u32
u32-Mirrors v = number-Mirrors 4 v

pub u64-Mirrors : (v : ℕ) → Mirrors (Encoder.u64 v) Decoder.u64 v
unfolding Encoder.u64 Decoder.u64
u64-Mirrors v = number-Mirrors 8 v

pub i64-Mirrors : (v : ℤ) → Mirrors (Encoder.i64 v) Decoder.i64 v
unfolding Encoder.i64 Encoder.write Encoder.pack_i64 Decoder.i64 pure
i64-Mirrors v = record {
  part = λ buf out h. elim (Bool-cases (fits_i64 v)) [
    | inl fits ↦ (
      to_bytes 8 (to_signed v),
      ground arith,
      λ rest.
          let bits = to_signed v in
          bind-ok (Decoder.take_bytes 8) _
            (take_bytes-Reads (to_bytes 8 bits) 8 (length-to_bytes 8 bits) rest)
          ∙ ap (λ x. ok (of_signed x, rest)) (from_bytes-to_bytes 8 bits (to_signed-lt v fits))
          ∙ ap (λ x. ok (x, rest)) (of_signed-to_signed v fits),
    )
    | inr wide ↦ absurd (ground arith)
  ];
}

-- Byte strings of any length that the prefix can state.
pub bytes-Mirrors : (b : Bytes) → Mirrors (Encoder.bytes_ b) Decoder.bytes_ b
unfolding Encoder.bytes_ Decoder.bytes_
bytes-Mirrors b = Mirrors-then _ (u32-Mirrors (length b)) (take_bytes-Mirrors b (length b) refl)

pub str-Mirrors : (s : Str) → Mirrors (Encoder.str_ s) Decoder.str_ s
unfolding Encoder.str_ Decoder.str_ Decoder.lift
str-Mirrors s = record {
  part = λ buf out h.
      let (b, hb, g) = >>=-eq-ok (Utf8.encode s) (λ x. Encoder.bytes_ x buf) h in
      let (p, ep, rp) = (bytes-Mirrors b).part buf out g in
      (p, ep, λ rest. bind-ok Decoder.bytes_ _ (rp rest) ∙ rw (decode-encode s hb));
}

from_bytes-one : (b : ℕ) → from_bytes (b ∷ []) ≡ b
unfolding from_bytes
from_bytes-one b = omega arith

u8-Reads : (b : ℕ) → Reads Decoder.u8 (b ∷ []) b
unfolding Decoder.u8 pure
u8-Reads b rest =
    bind-ok (Decoder.take_bytes 1) (λ x. pure (from_bytes x)) {src = b ∷ rest} {rest = rest}
      {a = b ∷ []} (take_bytes-Reads (b ∷ []) 1 refl rest)
    ∙ ap (λ x. ok (x, rest)) (from_bytes-one b)

-- The flag and the 16 bytes that follow it.
flagged-Reads :
    (flag : ℕ) (p : Bytes) → length p ≡ 16 → Reads Decoder.uuid_ (flag ∷ p) (Decoder.uuid_of flag p)
unfolding Decoder.uuid_ pure
flagged-Reads flag p h rest =
    bind-ok Decoder.u8 (λ f. Decoder.take_bytes 16 >>= λ b. pure (Decoder.uuid_of f b))
      {src = flag ∷ (p ++ rest)} {rest = p ++ rest} {a = flag} (u8-Reads flag (p ++ rest))
    ∙ bind-ok (Decoder.take_bytes 16) (λ b. pure (Decoder.uuid_of flag b)) {src = p ++ rest}
        {rest = rest} {a = p} (take_bytes-Reads p 16 h rest)

pub uuid-Mirrors : (u : Option ℕ) → Mirrors (Encoder.uuid_ u) Decoder.uuid_ u
unfolding Encoder.uuid_ Encoder.uuid_bytes Decoder.uuid_of
uuid-Mirrors none = record {
  part = λ buf out h.
      (0 ∷ replicate 16 0, sym (ok-injective h), flagged-Reads 0 (replicate 16 0) refl);
}
uuid-Mirrors (some u) = record {
  part = λ buf out h. elim (Bool-cases (ltb u (256 ^ 16))) [
    | inl fits ↦ (
      1 ∷ to_bytes 16 u,
      ground arith,
      λ rest.
          flagged-Reads 1 (to_bytes 16 u) (length-to_bytes 16 u) rest
          ∙ ap (λ x. ok (some x, rest)) (from_bytes-to_bytes 16 u (ltb→lt _ _ fits)),
    )
    | inr wide ↦ absurd (ground arith)
  ];
}

-- The same for a decoder that reads everything and ends with `eof`.
pub record MirrorsAll {A : Type 0} (e : Encoder) (d : Decoder A) (a : A) : Type 0 where
  pub whole :
      (buf out : Bytes) → e buf ≡ ok out → (p : Bytes) × (out ≡ buf ++ p) × (d p ≡ ok (a, []))

pub Mirrors-then_all :
    {A B : Type 0} {e f : Encoder} {d : Decoder A} (k : A → Decoder B) {a : A} {b : B}
    → Mirrors e d a
    → MirrorsAll f (k a) b
    → MirrorsAll (e ≫ f) (d >>= k) b
unfolding ◌≫◌
Mirrors-then_all {e} {f} {d} k {a} {b} m n = record {
  whole = λ buf out h.
      let (mid, hm, g) = >>=-eq-ok (e buf) f h in
      let (p, ep, rp) = m.part buf mid hm in
      let (q, eq, rq) = n.whole mid out g in
      (p ++ q, eq ∙ ap (λ l. l ++ q) ep ∙ append_assoc buf p q, bind-ok d k (rp q) ∙ rq);
}

pub Mirrors-last_eof :
    {A B : Type 0} {e : Encoder} {d : Decoder A} (x : Error) (g : A → B) {a : A}
    → Mirrors e d a
    → MirrorsAll e (d >>= λ y. Decoder.expect_eof x >>= λ _. pure (g y)) (g a)
unfolding Decoder.expect_eof pure
Mirrors-last_eof {d} x g {a} m = record {
  whole = λ buf out h.
      let (p, ep, rp) = m.part buf out h in
      let read : d p ≡ ok (a, []) = rw (← append-nil p) (rp []) in
      (p, ep, bind-ok d _ read ∙ bind-ok (Decoder.expect_eof x) (λ _. pure (g a)) refl);
}

pub decode-finish_all :
    {A : Type 0} {e : Encoder} {d : Decoder A} {a : A} {src : Bytes}
    → MirrorsAll e d a
    → Encoder.finish e ≡ ok src
    → Decoder.decode d src ≡ ok a
unfolding Encoder.finish Decoder.decode
decode-finish_all {d} {a} {src} m h =
    let (p, ep, rp) = m.whole [] src h in
    let eq : d src ≡ ok (a, []) = rw ep rp in rw (eq, Decoder.decode)

-- A test that passes reads nothing.
pub Mirrors-check :
    {B : Type 0} {f : Encoder} {c : Decoder (Unit {0})} {d : Decoder B} {b : B}
    → ((src : Bytes) → c src ≡ ok (tt, src))
    → Mirrors f d b
    → Mirrors f (c >>= λ _. d) b
Mirrors-check {c} {d} passes m = record {
  part = λ buf out h.
      let (p, ep, rp) = m.part buf out h in
      (p, ep, λ rest. bind-ok c (λ _. d) (passes (p ++ rest)) ∙ rp rest);
}

-- A value that is encoded on its own, and written as a byte string.
pub Mirrors-nested :
    {A : Type 0} (enc : Result Bytes) (dec : Bytes → Result A) (a : A)
    → ((b : Bytes) → enc ≡ ok b → dec b ≡ ok a)
    → Mirrors
        (λ buf. Result.◌>>=◌ enc (λ b. Encoder.bytes_ b buf))
        (Decoder.bytes_ >>= λ b. Decoder.lift (dec b))
        a
unfolding Decoder.lift
Mirrors-nested enc dec a inverse = record {
  part = λ buf out h.
      let (b, hb, g) = >>=-eq-ok enc (λ x. Encoder.bytes_ x buf) h in
      let (p, ep, rp) = (bytes-Mirrors b).part buf out g in
      (p, ep, λ rest. bind-ok Decoder.bytes_ _ (rp rest) ∙ rw (inverse b hb));
}
