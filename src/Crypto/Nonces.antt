-- ===== src/Crypto/Nonces.antt =====
-- shared/sih_shared/crypto.py: the nonces of an object's chunks.
use secupload.Base.{
  ℕ, ◌^◌, ◌<◌, ◌≡◌, arith, ltb, Bytes, length, Bool-cases, inl, inr, ltb→lt, ◌∙◌, sym, ap,
}
use secupload.Base.Result.{ok}
use secupload.Codec.Digits.{to_bytes, from_bytes, length-to_bytes, from_bytes-to_bytes}
use secupload.Crypto.{chunk_nonce}

chunk_nonce-ok :
    (index : ℕ) (nonce : Bytes)
    → chunk_nonce index ≡ ok nonce
    → (index < 256 ^ 12) × (nonce ≡ to_bytes 12 index)
unfolding chunk_nonce
chunk_nonce-ok index nonce h = elim (Bool-cases (ltb index (256 ^ 12))) [
  | inl fits ↦ (ltb→lt index (256 ^ 12) fits, ground arith)
  | inr large ↦ absurd (ground arith)
]

-- A chunk's nonce has the twelve bytes that AES-GCM takes, exists only for an index below 2 ^ 96, and no
-- two indexes of an object share one.
pub chunk_nonce_unique :
    (i j : ℕ) (nonce : Bytes)
    → chunk_nonce i ≡ ok nonce
    → chunk_nonce j ≡ ok nonce
    → (length nonce ≡ 12) × (i < 2 ^ 96) × (i ≡ j)
chunk_nonce_unique i j nonce hi hj =
    let (fits_i, is_i) = chunk_nonce-ok i nonce hi in
    let (fits_j, is_j) = chunk_nonce-ok j nonce hj in
    (
      ap length is_i ∙ length-to_bytes 12 i,
      fits_i,
      sym (from_bytes-to_bytes 12 i fits_i)
          ∙ ap from_bytes (sym is_i ∙ is_j)
          ∙ from_bytes-to_bytes 12 j fits_j,
    )
