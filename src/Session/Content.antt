-- ===== src/Session/Content.antt =====
-- `SessionContent::verify` and `verify_max_age` of tiauth/tiauth-core/src/proof.rs. The hash of a
-- password file is a parameter.
use mono_old.Common.{
  ℕ, ◌+◌, ◌%◌, ◌^◌, ◌<◌, ◌≤◌, ◌≡◌, refl, ◌↔◌, Bool, true, false, not, List, Result, ok, err, ltb,
  subst, if◌then◌else◌, arith,
}
use mono_old.Proof.Content.{is_expired}
use mono_old.Proof.Names.{same, same→eq, same_refl}

pub record SessionContent : Type 0 where
  pub user_id : List ℕ
  pub issued : ℕ
  pub expires : ℕ
  pub pw_file_hash : List ℕ
  pub session_claims : List ℕ

pub data InvalidSession : Type 0 where
  invalid_session : InvalidSession

module _ (create_hash : List ℕ → List ℕ) where
  unfoldable pub verify : SessionContent → ℕ → List ℕ → Result (List ℕ) InvalidSession
  verify s time password_file =
      if not (same s.pw_file_hash (create_hash password_file))
      then err invalid_session
      else (if is_expired time s.expires then err invalid_session else ok s.session_claims)

  -- `time > self.issued + max_age`, on 64 bits.
  unfoldable pub verify_max_age : SessionContent → ℕ → List ℕ → ℕ → Result (List ℕ) InvalidSession
  verify_max_age s time password_file max_age =
      if ltb ((s.issued + max_age) % 2 ^ 64) time
      then err invalid_session
      else verify s time password_file

  gates :
      (old unhashed expired : Bool) (claims c : List ℕ)
      → ((if old
            then err invalid_session
            else (if not unhashed
                then err invalid_session
                else (if expired then err invalid_session else ok claims)))
          ≡ ok c)
        ↔ ((old ≡ false) × (unhashed ≡ true) × (expired ≡ false) × (claims ≡ c))
  gates true b e claims c = ((λ h. cc h), λ h. cc (h.0))
  gates false false e claims c = ((λ h. cc h), λ h. cc (h.1))
  gates false true true claims c = ((λ h. cc h), λ h. cc (h.2))
  gates false true false claims c = ((λ h. (refl, refl, refl, cc h)), λ h. cc (h.3))

  -- Without overflow of the two sums, a session passes with its claims exactly when it was issued
  -- no longer ago than the age, the password file still has the hash that it was issued for, and
  -- it expires, with 10 seconds of leeway, after the time.
  pub verify_max_age-exact :
      (s : SessionContent) (time : ℕ) (password_file : List ℕ) (max_age : ℕ) (claims : List ℕ)
      → s.issued + max_age < 2 ^ 64
      → s.expires + 10 < 2 ^ 64
      → (verify_max_age s time password_file max_age ≡ ok claims) ↔ (
          (time ≤ s.issued + max_age)
          × (s.pw_file_hash ≡ create_hash password_file)
          × (time < s.expires + 10)
          × (s.session_claims ≡ claims))
  unfolding verify_max_age verify
  verify_max_age-exact s time password_file max_age claims no_wrap no_wrap' =
      let g =
        gates (ltb ((s.issued + max_age) % 2 ^ 64) time)
          (same s.pw_file_hash (create_hash password_file)) (is_expired time s.expires)
          s.session_claims claims in
      (
        (λ h.
            let (young, hash, fresh, c) = g.0 h in
            (
              ground (arith, young),
              same→eq s.pw_file_hash (create_hash password_file) hash,
              ground (arith, fresh),
              c,
            )),
        λ (young, hash, fresh, c). g.1 (
          ground (arith, young),
          subst (λ x. same s.pw_file_hash x ≡ true) hash (same_refl s.pw_file_hash),
          ground (arith, fresh),
          c,
        ),
      )
