-- ===== src/Ephemeral/Encrypted/Opened.antt =====
-- An ephemeral that one of the keys made opens with the keys, and reads as its content.
use mono_old.Common.{ℕ, ◌≡◌, Bool, List, ◌∷◌, ◌++◌, returns, ok, length, arith, subst, sym}
use mono_old.Rmp.{Rmp}
use mono_old.Crypto.{
  Cipher, OnlyOpensTo, symmetric_encrypt, symmetric_decrypt, symmetric_decrypt-encrypt,
}
use mono_old.Ephemeral.{EphemeralType}
use mono_old.Ephemeral.Content.{EphemeralContent}
use mono_old.Ephemeral.Bytes.{serialize}
use mono_old.Ephemeral.Encrypted.{create_expires, decrypt_bytes}

module _ (rmp : Rmp) (c : Cipher) where
  open c use {SymmetricKey}

  create_expires-encrypts :
      (key : SymmetricKey) (is_valid_type : EphemeralType → Bool) (e : EphemeralContent)
      (iv bytes : List ℕ)
      → create_expires rmp c key e.user_id is_valid_type e.state e.eph_type e.expires e.data_bytes
          iv
        ≡ returns bytes
      → symmetric_encrypt c (serialize rmp e) key iv ≡ returns bytes
  unfolding create_expires
  create_expires-encrypts key is_valid_type e iv bytes made = ground (arith, made)

  pub decrypt_bytes-created :
      (pre : List SymmetricKey) (key : SymmetricKey) (post keys : List SymmetricKey)
      (is_valid_type : EphemeralType → Bool) (e : EphemeralContent) (iv bytes : List ℕ)
      → keys ≡ pre ++ (key ∷ post)
      → length iv ≡ 12
      → OnlyOpensTo c keys key iv (serialize rmp e)
      → create_expires rmp c key e.user_id is_valid_type e.state e.eph_type e.expires e.data_bytes
          iv
        ≡ returns bytes
      → decrypt_bytes rmp c bytes keys ≡ ok (serialize rmp e)
  unfolding decrypt_bytes
  decrypt_bytes-created pre key post keys is_valid_type e iv bytes among size only made =
      let encrypted = create_expires-encrypts key is_valid_type e iv bytes made in
      let opened =
        symmetric_decrypt-encrypt c pre key post iv (serialize rmp e) bytes size
          (subst (λ ks. OnlyOpensTo c ks key iv (serialize rmp e)) among only) encrypted in
      let opened' : symmetric_decrypt c bytes keys ≡ ok (serialize rmp e) =
        subst (λ ks. symmetric_decrypt c bytes ks ≡ ok (serialize rmp e)) (sym among) opened in
      ground (arith, opened')
