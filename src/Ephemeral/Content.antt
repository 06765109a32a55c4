-- ===== src/Ephemeral/Content.antt =====
-- `EphemeralContent` of tiauth/tiauth-core/src/proof.rs: its checks and its bytes. What its data
-- deserializes to is a parameter.
use mono_old.Common.{
  ℕ, ◌^◌, ◌<◌, ◌≡◌, refl, ◌↔◌, Bool, true, false, List, Outcome, returns, panics, Result, ok, err,
  if◌then◌else◌, length, subst,
}
use mono_old.Proof.Content.{is_expired}
use mono_old.Proof.Names.{same, same→eq, same_refl}
use mono_old.Ephemeral.{EphemeralType, login, InvalidEphemeral, invalid_ephemeral}
use mono_old.Ephemeral.State.{
  LoginState, is_login, create_login_state, get_login_state, get_login_state-create,
}

pub record EphemeralContent : Type 0 where
  pub user_id : List ℕ
  pub expires : ℕ
  pub state : List ℕ
  pub eph_type : EphemeralType
  pub data_bytes : List ℕ

-- What follows the caller's check of the state.
abbrev pub accept : {D : Type 0} → Result Bool InvalidEphemeral → D → Result D InvalidEphemeral
accept (err e) d = err e
accept (ok b) d = ok d

-- A state is read only for its own type; a read of malformed bytes panics.
abbrev pub try_get_state :
    {V : Type 0}
    → (EphemeralType → Bool)
    → (List ℕ → Outcome V)
    → EphemeralType
    → List ℕ
    → Outcome (Result V InvalidEphemeral)
try_get_state is_valid_type get_state eph_type state =
    if is_valid_type eph_type
    then (elim (get_state state) [ returns v ↦ returns (ok v) | panics ↦ panics ])
    else returns (err invalid_ephemeral)

module _ {D : Type 0} (deserialize : List ℕ → D) where
  abbrev pub verified :
      {V : Type 0}
      → (V → Result Bool InvalidEphemeral)
      → List ℕ
      → Outcome (Result V InvalidEphemeral)
      → Outcome (Result D InvalidEphemeral)
  verified verify bytes panics = panics
  verified verify bytes (returns (err e)) = returns (err e)
  verified verify bytes (returns (ok v)) = returns (accept (verify v) (deserialize bytes))

  unfoldable pub verify_state :
      {V : Type 0}
      → (EphemeralType → Bool)
      → (List ℕ → Outcome V)
      → EphemeralContent
      → ℕ
      → (V → Result Bool InvalidEphemeral)
      → Outcome (Result D InvalidEphemeral)
  verify_state is_valid_type get_state c time verify =
      if is_expired time c.expires
      then returns (err invalid_ephemeral)
      else verified verify c.data_bytes (try_get_state is_valid_type get_state c.eph_type c.state)

  unfoldable pub verify_state_equal :
      (EphemeralType → Bool) → List ℕ → EphemeralContent → ℕ → Result D InvalidEphemeral
  verify_state_equal is_valid_type current_state c time =
      if is_expired time c.expires
      then err invalid_ephemeral
      else (if is_valid_type c.eph_type
          then (if same current_state c.state
              then ok (deserialize c.data_bytes)
              else err invalid_ephemeral)
          else err invalid_ephemeral)

  -- Before it expires, an ephemeral for a login is accepted exactly as the caller's check of the
  -- counter, the expiry and the hash that it was made with says.
  pub verify_state-login :
      (c : EphemeralContent) (time count expires : ℕ) (hash : List ℕ)
      (verify : LoginState → Result Bool InvalidEphemeral)
      → count < 2 ^ 64
      → expires < 2 ^ 64
      → length hash ≡ 32
      → c.eph_type ≡ login
      → c.state ≡ create_login_state (count, expires, hash)
      → is_expired time c.expires ≡ false
      → verify_state is_login get_login_state c time verify
        ≡ returns (accept (verify (count, expires, hash)) (deserialize c.data_bytes))
  unfolding verify_state
  verify_state-login c time count expires hash verify h h' size kind made fresh =
      rw (fresh, kind, made, get_login_state-create count expires hash h h' size) refl

  gates :
      (expired typed equal : Bool) (d d' : D)
      → ((if expired
            then err invalid_ephemeral
            else (if typed
                then (if equal then ok d else err invalid_ephemeral)
                else err invalid_ephemeral))
          ≡ ok d')
        ↔ ((expired ≡ false) × (typed ≡ true) × (equal ≡ true) × (d ≡ d'))
  gates true t e d d' = ((λ h. cc h), λ h. cc (h.0))
  gates false false e d d' = ((λ h. cc h), λ h. cc (h.1))
  gates false true false d d' = ((λ h. cc h), λ h. cc (h.2))
  gates false true true d d' = ((λ h. (refl, refl, refl, cc h)), λ h. cc (h.3))

  -- An ephemeral is accepted for a current state exactly when it has not expired, has a type that
  -- the state is for, and was made in an equal state.
  pub verify_state_equal-exact :
      (is_valid_type : EphemeralType → Bool) (current_state : List ℕ) (c : EphemeralContent)
      (time : ℕ) (d : D)
      → (verify_state_equal is_valid_type current_state c time ≡ ok d) ↔ (
          (is_expired time c.expires ≡ false)
          × (is_valid_type c.eph_type ≡ true)
          × (current_state ≡ c.state)
          × (deserialize c.data_bytes ≡ d))
  unfolding verify_state_equal
  verify_state_equal-exact is_valid_type current_state c time d =
      let g =
        gates (is_expired time c.expires) (is_valid_type c.eph_type) (same current_state c.state)
          (deserialize c.data_bytes) d in
      (
        (λ h.
            let (fresh, typed, equal, e) = g.0 h in
            (fresh, typed, same→eq current_state c.state equal, e)),
        λ (fresh, typed, equal, e). g.1 (
          fresh,
          typed,
          subst (λ s. same current_state s ≡ true) equal (same_refl current_state),
          e,
        ),
      )
