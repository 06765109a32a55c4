-- ===== src/State/Stored.antt =====
-- The state of an application that starts a second time.
use mono_old.Common.{
  ℕ, zero, suc, ◌^◌, ◌<◌, ◌≡◌, refl, sym, ap, ◌∙◌, Option, none, some, List, [], ◌∷◌, length, arith,
}
use mono_old.Decimal.{to_string, parse, parse-to_string}
use mono_old.Store.{Redb, keys}
use mono_old.Store.Keys.{
  opaque_setup_name, session_key_name, ephemeral_secret_name, ephemeral_time_name,
  ephemeral_valid_name, got_or_created,
}
use mono_old.Ops.Answer.{pure}
use mono_old.State.{Material, AppInitState, create_session_key, init_app_state}
use mono_old.State.Entries.{entries}
use mono_old.State.Restart.{init_app_state-Started}

some-eq : {A : Type 0} (a b : A) → some a ≡ some b → a ≡ b
some-eq a b h = cc

numbered-eq :
    (bound n m : ℕ) (bytes : List ℕ)
    → n < bound
    → to_string n ≡ bytes
    → parse bound bytes ≡ some m
    → m ≡ n
numbered-eq bound n m bytes fits same_bytes h =
    some-eq m n (sym h ∙ ap (parse bound) (sym same_bytes) ∙ parse-to_string bound n fits)

-- The entries from a number on hold the keys.
abbrev pub AreSaved : (ℕ → Option (List ℕ)) → ℕ → List (List ℕ) → Type 0
AreSaved at i [] = Unit
AreSaved at i (k ∷ ks) = (at i ≡ some k) × AreSaved at (suc i) ks

module _ {StoreError G PublicKey : Type 0} (redb : Redb StoreError)
    (material : Material G PublicKey) where
  -- Session keys from the generator, in order.
  abbrev pub drawn : ℕ → G → List (List ℕ) × G
  drawn zero g = ([], g)
  drawn (suc count) g =
      let first = create_session_key redb material g in
      let rest = drawn count first.1 in (first.0 ∷ rest.0, rest.1)

  -- No entry of the table of keys but the public key.
  pub record IsNew (db : redb.Database) : Type 0 where
    pub opaque : redb.stored db keys opaque_setup_name ≡ none
    pub session : (i : ℕ) → redb.stored db keys (session_key_name i) ≡ none
    pub secret : redb.stored db keys ephemeral_secret_name ≡ none
    pub time : redb.stored db keys ephemeral_time_name ≡ none
    pub amount : redb.stored db keys ephemeral_valid_name ≡ none

  pub record IsGenerated (count : ℕ) (create_setup : List ℕ) (g : G) (now : ℕ)
      (state : AppInitState PublicKey) (g' : G) : Type 0 where
    pub opaque : state.opaque ≡ create_setup
    pub session : state.session_keys ≡ (drawn count g).0
    pub secret : (state.ephemeral_secret, g') ≡ material.fill_bytes 32 (drawn count g).1
    pub time : state.ephemeral_time ≡ now
    pub amount : state.ephemeral_valid ≡ 2

  entries-drawn :
      (at : ℕ → Option (List ℕ)) (count i : ℕ) (g : G)
      → ((j : ℕ) → at j ≡ none)
      → entries redb material at count i g ≡ drawn count g
  entries-drawn at zero i g missing = refl
  entries-drawn at (suc count) i g missing =
      let first = create_session_key redb material g in
      let here : entries redb material at (suc count) i g ≡ (
        first.0 ∷ (entries redb material at count (suc i) first.1).0,
        (entries redb material at count (suc i) first.1).1,
      ) =
        ap
          (λ o.
            (let q = got_or_created o (create_session_key redb material) g in
              let rest = entries redb material at count (suc i) q.1 in (q.0 ∷ rest.0, rest.1)))
          (missing i) in
      here ∙ ap (λ q. (first.0 ∷ q.0, q.1)) (entries-drawn at count (suc i) first.1 missing)

  missing-eq :
      (o : Option (List ℕ)) (f : G → List ℕ × G) (g : G) (r : List ℕ × G)
      → o ≡ none
      → got_or_created o f g ≡ r
      → f g ≡ r
  missing-eq o f g r none_there h = sym (ap (λ o'. got_or_created o' f g) none_there) ∙ h

  -- A start that succeeds on a store without entries for its keys makes all of them anew: the setup
  -- of OPAQUE, the session keys and the ephemeral secret from the generator, and the reference time
  -- from the clock. None of them is stored, so that the next start is on such a store as well.
  pub init_app_state-forgets :
      (db db' : redb.Database) (count : ℕ) (create_setup : List ℕ) (public_key : Option PublicKey)
      (g g' : G) (now : ℕ) (state : AppInitState PublicKey)
      → IsNew db
      → now < 2 ^ 64
      → init_app_state redb material db count create_setup public_key g now ≡ pure (db', state, g')
      → IsGenerated count create_setup g now state g' × IsNew db'
  unfolding session_key_name
  init_app_state-forgets db db' count create_setup public_key g g' now state new fits h =
      let s =
        init_app_state-Started redb material db count create_setup public_key g now (db', state, g')
          h in
      let setup = missing-eq _ _ g _ new.opaque s.drawn.opaque in
      let g1 : s.drawn.g1 ≡ g = ap (λ p. p.1) (sym setup) in
      let sessions =
        sym (entries-drawn (λ j. redb.stored db keys (session_key_name j)) count 0 g new.session)
        ∙ ap (entries redb material (λ j. redb.stored db keys (session_key_name j)) count 0)
            (sym g1)
        ∙ s.drawn.session in
      let secret = missing-eq _ _ s.drawn.g2 _ new.secret s.drawn.secret in
      let time = missing-eq _ _ s.g' _ new.time s.numbered.time in
      let amount = missing-eq _ _ s.numbered.g1 _ new.amount s.numbered.amount in
      let last : g' ≡ s.g' = ap (λ p. p.1) (sym amount) ∙ ap (λ p. p.1) (sym time) in
      (
        record {
          opaque = ap (λ p. p.0) (sym setup);
          session = ap (λ p. p.0) (sym sessions);
          secret =
              ap (λ q. (state.ephemeral_secret, q)) last
              ∙ sym secret
              ∙ ap (material.fill_bytes 32) (ap (λ p. p.1) (sym sessions));
          time =
              numbered-eq (2 ^ 64) now state.ephemeral_time s.numbered.time_bytes fits
                (ap (λ p. p.0) time) s.numbered.parsed;
          amount =
              numbered-eq (2 ^ 32) 2 state.ephemeral_valid s.numbered.valid_bytes (omega arith)
                (ap (λ p. p.0) amount) s.numbered.counted;
        },
        record {
          opaque = s.kept keys opaque_setup_name refl ∙ new.opaque;
          session = λ i. s.kept keys (session_key_name i) refl ∙ new.session i;
          secret = s.kept keys ephemeral_secret_name refl ∙ new.secret;
          time = s.kept keys ephemeral_time_name refl ∙ new.time;
          amount = s.kept keys ephemeral_valid_name refl ∙ new.amount;
        },
      )

  -- What a state is in the table of keys.
  pub record IsSaved (db : redb.Database) (state : AppInitState PublicKey) : Type 0 where
    pub opaque : redb.stored db keys opaque_setup_name ≡ some state.opaque
    pub session : AreSaved (λ i. redb.stored db keys (session_key_name i)) 0 state.session_keys
    pub secret : redb.stored db keys ephemeral_secret_name ≡ some state.ephemeral_secret
    pub time : redb.stored db keys ephemeral_time_name ≡ some (to_string state.ephemeral_time)
    pub amount : redb.stored db keys ephemeral_valid_name ≡ some (to_string state.ephemeral_valid)
    pub short_time : state.ephemeral_time < 2 ^ 64
    pub short_amount : state.ephemeral_valid < 2 ^ 32

  entries-saved :
      (at : ℕ → Option (List ℕ)) (i : ℕ) (ks : List (List ℕ)) (g : G)
      → AreSaved at i ks
      → entries redb material at (length ks) i g ≡ (ks, g)
  entries-saved at i [] g saved = refl
  entries-saved at i (k ∷ ks) g (here, saved) =
      ap
        (λ o.
          (let q = got_or_created o (create_session_key redb material) g in
            let rest = entries redb material at (length ks) (suc i) q.1 in (q.0 ∷ rest.0, rest.1)))
        here
      ∙ ap (λ q. (k ∷ q.0, q.1)) (entries-saved at (suc i) ks g saved)

  there-eq :
      (o : Option (List ℕ)) (bytes : List ℕ) (f : G → List ℕ × G) (g : G) (r : List ℕ × G)
      → o ≡ some bytes
      → got_or_created o f g ≡ r
      → (bytes, g) ≡ r
  there-eq o bytes f g r there h = sym (ap (λ o'. got_or_created o' f g) there) ∙ h

  -- A start that succeeds on a store that holds the keys of a state comes to these keys and numbers,
  -- whatever the time and the setup, without a call of the generator.
  pub init_app_state-restores :
      (db db' : redb.Database) (create_setup : List ℕ) (public_key : Option PublicKey) (g g' : G)
      (now : ℕ) (saved state : AppInitState PublicKey)
      → IsSaved db saved
      → init_app_state redb material db (length saved.session_keys) create_setup public_key g now
        ≡ pure (db', state, g')
      → (state ≡ record saved { public_key = state.public_key }) × (g' ≡ g)
  init_app_state-restores db db' create_setup public_key g g' now saved state held h =
      let s =
        init_app_state-Started redb material db (length saved.session_keys) create_setup public_key
          g now (db', state, g') h in
      let setup = there-eq _ saved.opaque _ g _ held.opaque s.drawn.opaque in
      let sessions =
        sym (
          entries-saved (λ j. redb.stored db keys (session_key_name j)) 0 saved.session_keys g
            held.session)
        ∙ ap
            (entries redb material (λ j. redb.stored db keys (session_key_name j))
              (length saved.session_keys) 0)
            (ap (λ p. p.1) setup)
        ∙ s.drawn.session in
      let secret = there-eq _ saved.ephemeral_secret _ s.drawn.g2 _ held.secret s.drawn.secret in
      let time = there-eq _ _ _ s.g' _ held.time s.numbered.time in
      let amount = there-eq _ _ _ s.numbered.g1 _ held.amount s.numbered.amount in
      let opaque : state.opaque ≡ saved.opaque = ap (λ p. p.0) (sym setup) in
      let session : state.session_keys ≡ saved.session_keys = ap (λ p. p.0) (sym sessions) in
      let own : state.ephemeral_secret ≡ saved.ephemeral_secret = ap (λ p. p.0) (sym secret) in
      let now' : state.ephemeral_time ≡ saved.ephemeral_time =
        numbered-eq (2 ^ 64) saved.ephemeral_time state.ephemeral_time s.numbered.time_bytes
          held.short_time (ap (λ p. p.0) time) s.numbered.parsed in
      let valid : state.ephemeral_valid ≡ saved.ephemeral_valid =
        numbered-eq (2 ^ 32) saved.ephemeral_valid state.ephemeral_valid s.numbered.valid_bytes
          held.short_amount (ap (λ p. p.0) amount) s.numbered.counted in
      (
        rw (← opaque, ← session, ← own, ← now', ← valid) refl,
        ap (λ p. p.1) (sym amount)
            ∙ ap (λ p. p.1) (sym time)
            ∙ ap (λ p. p.1) (sym secret)
            ∙ ap (λ p. p.1) (sym sessions),
      )
