-- ===== src/Client/Api/Reading.antt =====
-- client/sih_client/api.py: the loop of `read_object` ends, gives the whole content where it is served,
-- and its digest is checked.
use secupload.Base.{
  ℕ, zero, suc, ◌+◌, ◌*◌, ◌≤◌, ◌<◌, ◌≡◌, ◌⊎◌, refl, arith, ltb, true, [], ◌∷◌, ◌++◌, take, drop,
  length, Bytes, some, Bool-cases, inl, inr, ap, ◌∙◌, sym, length-append, length-take, length-drop,
  min,
}
use secupload.Base.Result.{Result, ok, err, Error, Code, Result-cases}
use secupload.Codec.Utf8.{Str}
use secupload.Protocol.Messages.{ResponseMessage}
use secupload.Replay.Recency.{bytes_eq_sound}
use secupload.Server.Objects.Integrity.{take-take-drop}
use secupload.Successor.{bytes_eq}
use secupload.Client.Identity.{Setting}
use secupload.Client.Session
use secupload.Client.Session.{Session, Draws}
use secupload.Client.Api.{
  read_loop, chunk_size, is_ok, check_integrity, checked, read_object, fetching, read_request,
}

module _ {S : Type 0} (fetch : ℕ → ℕ → S → Result Bytes × S) where
  read_loop-ends :
      (fuel turn size : ℕ) (content : Bytes) (index : ℕ) (s : S)
      → 1 ≤ fuel
      → size < length content + fuel
      → (o : Result Bytes × S) × (read_loop fetch fuel turn size content index s ≡ some o)
  unfolding read_loop
  read_loop-ends zero turn size content index s some_fuel h = absurd (omega arith)
  read_loop-ends (suc fuel) turn size content index s some_fuel h =
      elim (Bool-cases (ltb (length content) size)) [
        | inr done ↦ ((ok content, s), rw (done, read_loop) refl)
        | inl more ↦
            let s1 = (fetch turn index s).1 in
            elim (Result-cases (fetch turn index s).0) [
              | inr (x, bad) ↦ ((err x, s1), rw (more, read_loop, bad) refl)
              | inl ([], good) ↦ ((ok content, s1), rw (more, read_loop, good) refl)
              | inl (b ∷ bs, good) ↦
                  let (o, ended) =
                    read_loop-ends fuel (suc turn) size (content ++ b ∷ bs) (suc index) s1
                      (ground arith) (ground (arith, length-append content (b ∷ bs))) in
                  (o, rw (more, read_loop, good) ended)
            ]
      ]

  -- A transport that, in the states of a kind, answers with the chunk of a file at an index inside it,
  -- and stays in a state of that kind.
  pub record Serves (IsReady : S → Type 0) (file : Bytes) : Type 0 where
    pub served :
        (turn index : ℕ) (s : S)
        → IsReady s
        → index * chunk_size < length file
        → ((fetch turn index s).0 ≡ ok (take chunk_size (drop (index * chunk_size) file)))
          × IsReady (fetch turn index s).1

take-beyond : (n : ℕ) (xs : Bytes) → length xs ≤ n → take n xs ≡ xs
take-beyond zero [] h = refl
take-beyond zero (x ∷ xs) h = absurd (omega arith)
take-beyond (suc n) [] h = refl
take-beyond (suc n) (x ∷ xs) h = ap (◌∷◌ x) (take-beyond n xs (omega arith))

module _ {S : Type 0} (fetch : ℕ → ℕ → S → Result Bytes × S) (IsReady : S → Type 0) (file : Bytes)
    (server : Serves fetch IsReady file) where
  next_chunk :
      (index : ℕ)
      → take (index * chunk_size) file ++ take chunk_size (drop (index * chunk_size) file)
        ≡ take (suc index * chunk_size) file
  next_chunk index =
      take-take-drop (index * chunk_size) chunk_size file ∙ ap (λ n. take n file) (omega arith)

  read_loop-content :
      (fuel turn index : ℕ) (content : Bytes) (s : S)
      → IsReady s
      → content ≡ take (index * chunk_size) file
      → 1 ≤ fuel
      → length file < length content + fuel
      → (s1 : S) × (read_loop fetch fuel turn (length file) content index s ≡ some (ok file, s1))
  unfolding read_loop
  read_loop-content zero turn index content s ready same some_fuel h = absurd (omega arith)
  read_loop-content (suc fuel) turn index content s ready same some_fuel h =
      let size : length content ≡ min (index * chunk_size) (length file) =
        ap length same ∙ length-take (index * chunk_size) file in
      elim (Bool-cases (ltb (length content) (length file))) [
        | inr done ↦
            let whole : content ≡ file =
              same ∙ take-beyond (index * chunk_size) file (ground (arith, size)) in
            (s, rw (done, read_loop, whole) refl)
        | inl more ↦
            let text = take chunk_size (drop (index * chunk_size) file) in
            let s1 = (fetch turn index s).1 in
            let inside : index * chunk_size < length file = ground (arith, size) in
            let (got, kept) = server.served turn index s ready inside in
            let long : 1 ≤ length text = omega (
              arith,
              length-take chunk_size (drop (index * chunk_size) file),
              length-drop (index * chunk_size) file,
              inside,
            ) in
            step fuel turn index content s s1 text more got long (λ b bs is_text.
              read_loop-content fuel (suc turn) (suc index) (content ++ b ∷ bs) s1 kept
                (ap (λ c. content ++ c) (sym is_text) ∙ ap (λ c. c ++ text) same ∙ next_chunk index)
                (ground arith) (ground (arith, length-append content (b ∷ bs))))
      ]
    where
      step :
          (fuel turn index : ℕ) (content : Bytes) (s s1 : S) (text : Bytes)
          → ltb (length content) (length file) ≡ true
          → (fetch turn index s).0 ≡ ok text
          → 1 ≤ length text
          → ((b : ℕ) (bs : Bytes)
              → text ≡ b ∷ bs
              → (s2 : S) × (read_loop fetch fuel
                    (suc turn)
                    (length file)
                    (content ++ b ∷ bs)
                    (suc index)
                    (fetch turn index s).1
                  ≡ some (ok file, s2)))
          → (s2 : S) × (read_loop fetch (suc fuel) turn (length file) content index s
              ≡ some (ok file, s2))
      step fuel turn index content s s1 [] more got long rest = absurd (omega arith)
      step fuel turn index content s s1 (b ∷ bs) more got long rest =
          let (s2, ended) = rest b bs refl in (s2, rw (more, read_loop, got) ended)

-- The loop of a read ends on a fuel of one more than the announced size, whatever the transport
-- answers.
read_loop-terminates :
    {S : Type 0} (fetch : ℕ → ℕ → S → Result Bytes × S) (turn size : ℕ) (s : S)
    → (o : Result Bytes × S) × (read_loop fetch (suc size) turn size [] 0 s ≡ some o)
read_loop-terminates fetch turn size s =
    read_loop-ends fetch (suc size) turn size [] 0 s (omega arith) (omega arith)

-- Where the transport answers with the chunks of a file from the state on that it is in, and the
-- announced size is the file's, the loop of a read gives the whole file, on a fuel of one more than
-- its size.
pub read_loop-whole :
    {S : Type 0} (fetch : ℕ → ℕ → S → Result Bytes × S) (IsReady : S → Type 0) (file : Bytes)
    (turn : ℕ) (s : S)
    → Serves fetch IsReady file
    → IsReady s
    → (s1 : S) × (read_loop fetch (suc (length file)) turn (length file) [] 0 s
        ≡ some (ok file, s1))
read_loop-whole fetch IsReady file turn s server ready =
    read_loop-content fetch IsReady file server (suc (length file)) turn 0 [] s ready refl
      (omega arith) (omega arith)

checked-integrity :
    {S : Type 0} (hex : Bytes → Str) (expected : Str) (content : Bytes) (r : Result Bytes × S)
    (s1 : S)
    → checked hex expected r ≡ (ok content, s1)
    → (expected ≡ []) ⊎ (hex content ≡ expected)
unfolding checked check_integrity
checked-integrity hex [] content r s1 h = inl refl
checked-integrity hex (x ∷ xs) content (err y, s) s1 h = absurd (ground arith)
checked-integrity hex (x ∷ xs) content (ok c, s) s1 h =
    elim (Bool-cases (bytes_eq (hex c) (x ∷ xs))) [
      | inr other ↦ absurd (ground arith)
      | inl same ↦
          let is : c ≡ content = ground arith in
          inr (ap hex (sym is) ∙ bytes_eq_sound (hex c) (x ∷ xs) same)
    ]

-- What a read may return: an exception, or a content whose digest the answer to the request announced,
-- unless that answer announced none.
abbrev pub IsChecked : Setting → (Bytes → Str) → (ℕ → Draws) → ℕ → Session → Result Bytes → Type 0
IsChecked cfg hex draws object s (err x) = Unit
IsChecked cfg hex draws object s (ok content) =
    (response : ResponseMessage) × ((Session.request cfg (draws 0) (read_request object) s).0
      ≡ ok response)
    × ((response.content_integrity ≡ []) ⊎ (hex content ≡ response.content_integrity))

checked-IsChecked :
    (cfg : Setting) (hex : Bytes → Str) (draws : ℕ → Draws) (object : ℕ) (s s1 : Session)
    (response : ResponseMessage) (r o : Result Bytes)
    → (Session.request cfg (draws 0) (read_request object) s).0 ≡ ok response
    → checked hex response.content_integrity (r, s1) ≡ (o, s1)
    → IsChecked cfg hex draws object s o
checked-IsChecked cfg hex draws object s s1 response r (err x) asked h = tt
checked-IsChecked cfg hex draws object s s1 response r (ok content) asked h =
    (response, asked, checked-integrity hex response.content_integrity content (r, s1) s1 h)

checked-session :
    {S : Type 0} (hex : Bytes → Str) (expected : Str) (r : Result Bytes × S)
    → checked hex expected r ≡ ((checked hex expected r).0, r.1)
unfolding checked
checked-session hex expected (err x, s) = refl
checked-session hex expected (ok content, s) = refl

-- Whatever the server and the proxy answer, a read of an object ends on some fuel, and what it returns
-- is an exception, or a content whose digest is the one that the answer to the request announced,
-- unless that one is empty.
pub read_object-IsChecked :
    (cfg : Setting) (hex : Bytes → Str) (draws : ℕ → Draws) (object : ℕ) (s : Session)
    → (fuel : ℕ) × (o : Result Bytes × Session) × (read_object cfg hex draws fuel object s ≡ some o)
      × IsChecked cfg hex draws object s o.0
unfolding read_object
read_object-IsChecked cfg hex draws object s =
    let s1 = (Session.request cfg (draws 0) (read_request object) s).1 in
    elim (Result-cases (Session.request cfg (draws 0) (read_request object) s).0) [
      | inr (x, bad) ↦ (1, (err x, s1), rw (bad, read_object) refl, tt)
      | inl (response, good) ↦ elim (Bool-cases (is_ok response)) [
        | inr refused ↦ (
          1,
          (err (Error.client_error Code.read_rejected), s1),
          rw (good, read_object, refused) refl,
          tt,
        )
        | inl accepted ↦
            let (r, ended) =
              read_loop-terminates (fetching cfg hex draws object) 1 response.file_size s1 in
            let o = checked hex response.content_integrity r in
            (
              suc response.file_size,
              o,
              rw (good, read_object, accepted, ended) refl,
              checked-IsChecked cfg hex draws object s r.1 response r.0 o.0 good
                  (checked-session hex response.content_integrity r),
            )
      ]
    ]
