-- ===== src/State/Entries.antt =====
-- The single reads of an application that starts: an entry of the table of keys, the session keys, a
-- number, and the write of the public key.
use mono_old.Common.{
  ℕ, zero, suc, ◌≡◌, refl, sym, ap, ◌∙◌, subst, Bool, true, false, ◌&&◌, Option, none, some, List,
  [], ◌∷◌, ok, if◌then◌else◌, length, ◌==◌,
}
use mono_old.Decimal.{parse}
use mono_old.Store.{Redb, TableName, keys, eq_table}
use mono_old.Store.Keys.{
  session_key_name, public_key_name, got_or_created, get_or_create, overwrite_or_get,
  get_session_key_or_create, overwrite_public_key_or_get,
}
use mono_old.Proof.Names.{same}
use mono_old.Ops.Answer.{Answer, pure, fail, try, broaden, bind-ok, try-ok, broaden-ok}
use mono_old.Ops.Register.Records.{pure-eq}
use mono_old.State.{
  LoadError, database, no_public_key, invalid_key, parse_error, Material, from_utf8,
  from_saved_bytes, or_fail, create_session_key, load_session_keys, load_number, load_public,
}

pub gate-same :
    {E A : Type 0} (b : Bool) (a c : A) (e : E)
    → (let m : Answer E A = pure a in if b then m else fail e) ≡ pure c
    → a ≡ c
gate-same true a c e h = pure-eq a c h
gate-same false a c e h = cc

module _ {StoreError : Type 0} where
  or_fail-some :
      {A : Type 0} (e : LoadError StoreError) (o : Option A) (a : A)
      → or_fail e o ≡ pure a
      → o ≡ some a
  or_fail-some e none a h = cc
  or_fail-some e (some b) a h = ap some (pure-eq b a h)

module _ {StoreError G PublicKey : Type 0} (redb : Redb StoreError)
    (material : Material G PublicKey) where
  pub get_or_create-gets :
      (db : redb.Database) (tx : redb.WriteTx) (key : List ℕ) (f : G → List ℕ × G) (g : G)
      (r : List ℕ × G)
      → redb.open_write db ≡ ok tx
      → broaden database (get_or_create redb tx key f g) ≡ pure r
      → got_or_created (redb.stored db keys key) f g ≡ r
  unfolding get_or_create
  get_or_create-gets db tx key f g r began h =
      let (found, got, h1) =
        bind-ok (try (λ e. e) (redb.get tx keys key)) _ r (broaden-ok database _ r h) in
      let seen : found ≡ redb.stored db keys key =
        redb.get-pending tx keys key found (try-ok (λ e. e) _ found got)
        ∙ redb.open_write-pending db tx keys key began in
      subst (λ o. got_or_created o f g ≡ r) seen (pure-eq _ r h1)

  -- The session keys by their entries, where those that are missing are drawn in order.
  abbrev pub entries : (ℕ → Option (List ℕ)) → ℕ → ℕ → G → List (List ℕ) × G
  entries at zero i g = ([], g)
  entries at (suc count) i g =
      let first = got_or_created (at i) (create_session_key redb material) g in
      let rest = entries at count (suc i) first.1 in (first.0 ∷ rest.0, rest.1)

  pub load_session_keys-entries :
      (db : redb.Database) (tx : redb.WriteTx) (count i : ℕ) (g : G) (r : List (List ℕ) × G)
      → redb.open_write db ≡ ok tx
      → load_session_keys redb material tx count i g ≡ pure r
      → entries (λ j. redb.stored db keys (session_key_name j)) count i g ≡ r
  unfolding load_session_keys get_session_key_or_create
  load_session_keys-entries db tx zero i g r began h = pure-eq ([], g) r h
  load_session_keys-entries db tx (suc count) i g r began h =
      let (p, got, h1) =
        bind-ok
          (broaden database
            (get_or_create redb tx (session_key_name i) (create_session_key redb material) g))
          _ r h in
      let (key, saved, h2) = bind-ok (from_saved_bytes (p.0)) _ r h1 in
      let (rest, loaded, h3) =
        bind-ok (load_session_keys redb material tx count (suc i) (p.1)) _ r h2 in
      let first =
        get_or_create-gets db tx (session_key_name i) (create_session_key redb material) g p began
          got in
      let same_key : p.0 ≡ key = gate-same (length (p.0) == 32) (p.0) key _ saved in
      let more = load_session_keys-entries db tx count (suc i) (p.1) rest began loaded in
      let whole : (key ∷ rest.0, rest.1) ≡ r = pure-eq _ r h3 in
      let at : ℕ → Option (List ℕ) = λ j. redb.stored db keys (session_key_name j) in
      let here : entries at (suc count) i g
          ≡ (p.0 ∷ (entries at count (suc i) (p.1)).0, (entries at count (suc i) (p.1)).1) =
        ap (λ q. (let rest' = entries at count (suc i) q.1 in (q.0 ∷ rest'.0, rest'.1))) first in
      here ∙ ap (λ q. (p.0 ∷ q.0, q.1)) more ∙ ap (λ k. (k ∷ rest.0, rest.1)) same_key ∙ whole

  pub load_number-parses :
      (bound : ℕ) (bytes : List ℕ) (n : ℕ)
      → load_number redb material bound bytes ≡ pure n
      → parse bound bytes ≡ some n
  unfolding load_number
  load_number-parses bound bytes n h =
      let (text, utf8, h1) = bind-ok (from_utf8 material.is_utf8 bytes) _ n h in
      ap (parse bound) (gate-same (material.is_utf8 bytes) bytes text _ utf8)
      ∙ or_fail-some parse_error (parse bound text) n h1

  overwrite-pending :
      (tx : redb.WriteTx) (key : List ℕ) (value : Option (List ℕ))
      (r : redb.WriteTx × Option (List ℕ))
      → overwrite_or_get redb tx key value ≡ pure r
      → (t : TableName) (j : List ℕ) → (eq_table keys t && same key j) ≡ false
      → redb.pending r.0 t j ≡ redb.pending tx t j
  unfolding overwrite_or_get
  overwrite-pending tx key none r h t j other =
      let (found, got, h1) = bind-ok (try (λ e. e) (redb.get tx keys key)) _ r h in
      ap (λ p. redb.pending p.0 t j) (sym (pure-eq _ r h1))
  overwrite-pending tx key (some value) r h t j other =
      let (tx', inserted, h1) = bind-ok (try (λ e. e) (redb.insert tx keys key value)) _ r h in
      ap (λ p. redb.pending p.0 t j) (sym (pure-eq _ r h1))
      ∙ redb.insert-pending tx tx' keys t key j value (try-ok (λ e. e) _ tx' inserted)
      ∙ rw other refl

  -- The write of the public key, and of nothing else.
  pub load_public-pending :
      (tx : redb.WriteTx) (public_key : Option PublicKey) (r : redb.WriteTx × PublicKey)
      → load_public redb material tx public_key ≡ pure r
      → (t : TableName) (j : List ℕ) → (eq_table keys t && same public_key_name j) ≡ false
      → redb.pending r.0 t j ≡ redb.pending tx t j
  unfolding load_public overwrite_public_key_or_get
  load_public-pending tx public_key r h t j other =
      let value : Option (List ℕ) = elim public_key [
        | none ↦ none
        | some k ↦ some (material.save_public_key k)
      ] in
      let (p, got, h1) =
        bind-ok (broaden database (overwrite_public_key_or_get redb tx value)) _ r h in
      let (bytes, there, h2) = bind-ok (or_fail no_public_key (p.1)) _ r h1 in
      let (pem, utf8, h3) = bind-ok (from_utf8 material.is_utf8 bytes) _ r h2 in
      let (key, loaded, h4) = bind-ok (or_fail invalid_key (material.load_public_key pem)) _ r h3 in
      ap (λ q. redb.pending q.0 t j) (sym (pure-eq _ r h4))
      ∙ overwrite-pending tx public_key_name value p (broaden-ok database _ p got) t j other
