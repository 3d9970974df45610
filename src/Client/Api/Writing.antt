-- ===== src/Client/Api/Writing.antt =====
-- client/sih_client/api.py: the loop of `write_object` ends, and delivers the whole content.
use secupload.Base.{
  ℕ, zero, suc, ◌+◌, ◌/◌, ◌≤◌, ◌<◌, ◌≡◌, refl, arith, ltb, true, [], ◌∷◌, ◌++◌, take, drop, length,
  Bytes, some, Bool-cases, inl, inr, append_assoc, append-nil, ap, ◌∙◌, sym,
}
use secupload.Base.Result.{Result, ok, err, Error, Code, Result-cases}
use secupload.Protocol.Messages.{ResponseMessage}
use secupload.Server.Objects.Integrity.{drop-drop}
use secupload.Client.Api.{write_loop, chunk_size, is_ok}

take-append-drop : (n : ℕ) (xs : Bytes) → take n xs ++ drop n xs ≡ xs
take-append-drop zero xs = refl
take-append-drop (suc n) [] = refl
take-append-drop (suc n) (x ∷ xs) = ap (◌∷◌ x) (take-append-drop n xs)

drop-beyond : (n : ℕ) (xs : Bytes) → length xs ≤ n → drop n xs ≡ []
drop-beyond zero [] h = refl
drop-beyond zero (x ∷ xs) h = absurd (omega arith)
drop-beyond (suc n) [] h = refl
drop-beyond (suc n) (x ∷ xs) h = drop-beyond n xs (omega arith)

-- What is left at an index is the chunk there and what is left after it.
chunk-then-rest :
    (index : ℕ) (xs : Bytes)
    → take chunk_size (drop index xs) ++ drop (index + chunk_size) xs ≡ drop index xs
chunk-then-rest index xs =
    ap (λ b. take chunk_size (drop index xs) ++ b) (sym (drop-drop chunk_size index xs))
    ∙ take-append-drop chunk_size (drop index xs)

module _ {S : Type 0} (send : ℕ → ℕ → Bytes → S → Result ResponseMessage × S) where
  write_loop-ends :
      (fuel turn : ℕ) (data_ : Bytes) (index : ℕ) (s : S)
      → 1 ≤ fuel
      → length data_ < index + fuel
      → (o : Result (Unit {0}) × S) × (write_loop send fuel turn data_ index s ≡ some o)
  unfolding write_loop
  write_loop-ends zero turn data_ index s some_fuel h = absurd (omega arith)
  write_loop-ends (suc fuel) turn data_ index s some_fuel h =
      elim (Bool-cases (ltb index (length data_))) [
        | inr done ↦ ((ok tt, s), rw (done, write_loop) refl)
        | inl more ↦
            let text = take chunk_size (drop index data_) in
            let s1 = (send turn (index / chunk_size) text s).1 in
            elim (Result-cases (send turn (index / chunk_size) text s).0) [
              | inr (x, bad) ↦ ((err x, s1), rw (more, write_loop, bad) refl)
              | inl (response, good) ↦ elim (Bool-cases (is_ok response)) [
                | inr refused ↦ (
                  (err (Error.client_error Code.chunk_rejected), s1),
                  rw (more, write_loop, good, refused) refl,
                )
                | inl accepted ↦
                    let (o, ended) =
                      write_loop-ends fuel (suc turn) data_ (index + chunk_size) s1 (ground arith)
                        (ground arith) in
                    (o, rw (more, write_loop, good, accepted) ended)
              ]
            ]
      ]

  -- A transport whose accepted chunks are appended to what it has.
  pub record Appends (content : S → Bytes) : Type 0 where
    pub appended :
        (turn index : ℕ) (text : Bytes) (s : S) (response : ResponseMessage)
        → (send turn index text s).0 ≡ ok response
        → is_ok response ≡ true
        → content (send turn index text s).1 ≡ content s ++ text

  write_loop-content :
      (content : S → Bytes)
      → Appends content
      → (fuel turn : ℕ) (data_ : Bytes) (index : ℕ) (s s1 : S)
      → write_loop send fuel turn data_ index s ≡ some (ok tt, s1)
      → content s1 ≡ content s ++ drop index data_
  unfolding write_loop
  write_loop-content content app zero turn data_ index s s1 h = absurd (ground arith)
  write_loop-content content app (suc fuel) turn data_ index s s1 h =
      elim (Bool-cases (ltb index (length data_))) [
        | inr done ↦ ground (arith, drop-beyond index data_, append-nil (content s))
        | inl more ↦
            let text = take chunk_size (drop index data_) in
            let s2 = (send turn (index / chunk_size) text s).1 in
            elim (Result-cases (send turn (index / chunk_size) text s).0) [
              | inr (x, bad) ↦ absurd (ground arith)
              | inl (response, good) ↦ elim (Bool-cases (is_ok response)) [
                | inr refused ↦ absurd (ground arith)
                | inl accepted ↦
                    write_loop-content content app fuel (suc turn) data_ (index + chunk_size) s2 s1
                      (ground arith)
                    ∙ ap (λ b. b ++ drop (index + chunk_size) data_)
                        (app.appended turn (index / chunk_size) text s response good accepted)
                    ∙ append_assoc (content s) text (drop (index + chunk_size) data_)
                    ∙ ap (λ b. content s ++ b) (chunk-then-rest index data_)
              ]
            ]
      ]

-- The loop of a write ends on a fuel of one more than the bytes to write; where it raises nothing, and
-- every chunk that is accepted is appended to what the receiver has, the receiver has got the whole
-- content, in order.
pub write_loop-delivers :
    {S : Type 0} (send : ℕ → ℕ → Bytes → S → Result ResponseMessage × S) (content : S → Bytes)
    (turn : ℕ) (data_ : Bytes) (s : S)
    → Appends send content
    → (o : Result (Unit {0}) × S) × (write_loop send (suc (length data_)) turn data_ 0 s ≡ some o)
      × (o.0 ≡ ok tt → content o.1 ≡ content s ++ data_)
write_loop-delivers send content turn data_ s app =
    let (o, ended) =
      write_loop-ends send (suc (length data_)) turn data_ 0 s (omega arith) (omega arith) in
    (
      o,
      ended,
      λ good.
          write_loop-content send content app (suc (length data_)) turn data_ 0 s o.1
            (ground (arith, ended, good)),
    )
