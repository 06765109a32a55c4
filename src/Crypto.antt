-- ===== src/Crypto.antt =====
-- The symmetric encryption of tiauth/tiauth-core/src/crypto.rs. The cipher, of the crate
-- aes-gcm-siv, is a parameter, and so are the random bytes of a nonce.
use mono_old.Common.{
  ℕ, ◌+◌, ◌-◌, ◌≡◌, refl, ap, false, Option, none, some, List, [], ◌∷◌, ◌++◌, Outcome, returns,
  panics, Result, ok, err, ltb, ltb-false, if◌then◌else◌, length, take, drop, ◌⊎◌, Option-cases,
  All, inl, inr, arith, length-append, take-append, drop-append,
}

-- An encryption appends a tag of 16 bytes, and the key that made it opens it.
pub record Cipher : Type 1 where
  pub SymmetricKey : Type 0
  pub encrypt : SymmetricKey → List ℕ → List ℕ → Option (List ℕ)
  pub decrypt : SymmetricKey → List ℕ → List ℕ → Option (List ℕ)
  pub decrypt-encrypt :
      (key : SymmetricKey) (nonce text ciphertext : List ℕ)
      → encrypt key nonce text ≡ some ciphertext
      → decrypt key nonce ciphertext ≡ some text
  pub length-encrypt :
      (key : SymmetricKey) (nonce text ciphertext : List ℕ)
      → encrypt key nonce text ≡ some ciphertext
      → length ciphertext ≡ length text + 16

pub data DecryptFailed : Type 0 where
  decrypt_failed : DecryptFailed

module _ (c : Cipher) where
  open c use {SymmetricKey, encrypt, decrypt}

  -- The nonce is put at the end.
  unfoldable pub symmetric_encrypt : List ℕ → SymmetricKey → List ℕ → Outcome (List ℕ)
  symmetric_encrypt session_data key iv_bytes = elim (encrypt key iv_bytes session_data) [
    | none ↦ panics
    | some ciphertext ↦ returns (ciphertext ++ iv_bytes)
  ]

  -- The loop over the keys.
  unfoldable pub try_keys : List SymmetricKey → List ℕ → List ℕ → Result (List ℕ) DecryptFailed
  try_keys [] nonce ciphertext = err decrypt_failed
  try_keys (key ∷ keys) nonce ciphertext =
      let rest = try_keys keys nonce ciphertext in
      elim (decrypt key nonce ciphertext) [ some decrypted ↦ ok decrypted | none ↦ rest ]

  unfoldable pub symmetric_decrypt : List ℕ → List SymmetricKey → Result (List ℕ) DecryptFailed
  unfolding try_keys
  symmetric_decrypt encrypted keys =
      let encrypted_len = length encrypted in
      if ltb encrypted_len 28
      then err decrypt_failed
      else try_keys keys (drop (encrypted_len - 12) encrypted) (take (encrypted_len - 12) encrypted)

  -- None of these keys, which a server tries, opens what the key made to another text.
  abbrev pub OnlyOpensTo : List SymmetricKey → SymmetricKey → List ℕ → List ℕ → Type 0
  OnlyOpensTo keys key iv text =
      All
        (λ other.
          (ciphertext : List ℕ)
          → encrypt key iv text ≡ some ciphertext
          → (decrypt other iv ciphertext ≡ none) ⊎ (decrypt other iv ciphertext ≡ some text))
        keys

  try_keys-found :
      (pre : List SymmetricKey) (key : SymmetricKey) (post : List SymmetricKey)
      (nonce text ciphertext : List ℕ)
      → encrypt key nonce text ≡ some ciphertext
      → OnlyOpensTo (pre ++ (key ∷ post)) key nonce text
      → try_keys (pre ++ (key ∷ post)) nonce ciphertext ≡ ok text
  unfolding try_keys
  try_keys-found [] key post nonce text ciphertext e only =
      rw (c.decrypt-encrypt key nonce text ciphertext e) refl
  try_keys-found (p ∷ pre) key post nonce text ciphertext e (first, only) =
      elim (first ciphertext e) [
        | inl fails ↦ rw fails (try_keys-found pre key post nonce text ciphertext e only)
        | inr opens ↦ rw opens refl
      ]

  -- What a key encrypted is read again with keys that have it, where none of these opens it to
  -- another text.
  pub symmetric_decrypt-encrypt :
      (pre : List SymmetricKey) (key : SymmetricKey) (post : List SymmetricKey)
      (iv text encrypted : List ℕ)
      → length iv ≡ 12
      → OnlyOpensTo (pre ++ (key ∷ post)) key iv text
      → symmetric_encrypt text key iv ≡ returns encrypted
      → symmetric_decrypt encrypted (pre ++ (key ∷ post)) ≡ ok text
  unfolding symmetric_encrypt symmetric_decrypt
  symmetric_decrypt-encrypt pre key post iv text encrypted size only made =
      elim (Option-cases (encrypt key iv text)) [
        | inl e ↦ absurd (ground (arith, made, e))
        | inr (ciphertext, e) ↦
            let whole : ciphertext ++ iv ≡ encrypted = ground (arith, made, e) in
            let n : length encrypted ≡ length ciphertext + 12 =
              omega (arith, ap length whole, length-append ciphertext iv) in
            let long : ltb (length encrypted) 28 ≡ false =
              ltb-false (length encrypted) 28
                (omega (arith, c.length-encrypt key iv text ciphertext e)) in
            let cut : length encrypted - 12 ≡ length ciphertext = omega (arith, n) in
            let front : take (length encrypted - 12) encrypted ≡ ciphertext =
              rw (cut, ← whole) (take-append ciphertext iv) in
            let back : drop (length encrypted - 12) encrypted ≡ iv =
              rw (cut, ← whole) (drop-append ciphertext iv) in
            rw (long, front, back) (try_keys-found pre key post iv text ciphertext e only)
      ]
