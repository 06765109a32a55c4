-- ===== src/State/Restart.antt =====
-- What an application that starts reads from its store, and what it leaves there.
use mono_old.Common.{
  ℕ, ◌^◌, ◌≡◌, sym, ap, ◌∙◌, subst, false, ◌&&◌, Option, some, List, ok, length, ◌==◌,
}
use mono_old.Decimal.{to_string, parse}
use mono_old.Store.{Redb, TableName, keys, eq_table}
use mono_old.Store.Keys.{
  opaque_setup_name, session_key_name, ephemeral_secret_name, ephemeral_time_name,
  ephemeral_valid_name, public_key_name, got_or_created, get_or_create, get_opaque_or_create,
  get_ephemeral_secret_or_create, get_ephemeral_time_or_create, get_ephemeral_valid_or_create,
}
use mono_old.Proof.Names.{same}
use mono_old.Ops.Answer.{pure, try, broaden, bind-ok, try-ok}
use mono_old.Ops.Register.Records.{pure-eq}
use mono_old.State.{
  database, Material, AppInitState, from_utf8, to_array, load_session_keys, load_number,
  load_public, Secrets, read_secrets, read_numbers, read_app_state, init_app_state,
}
use mono_old.State.Entries.{
  gate-same, get_or_create-gets, entries, load_session_keys-entries, load_number-parses,
  load_public-pending,
}

module _ {StoreError G PublicKey : Type 0} (redb : Redb StoreError)
    (material : Material G PublicKey) where
  -- How a start came to its secrets: from the entries of the table of keys, and for the missing
  -- ones from the generator and the setup of OPAQUE.
  pub record Drawn (db : redb.Database) (count : ℕ) (create_setup : List ℕ) (g : G)
      (r : Secrets redb material) : Type 0 where
    pub g1 : G
    pub g2 : G
    pub opaque :
        got_or_created (redb.stored db keys opaque_setup_name) (λ q. (create_setup, q)) g
        ≡ (r.0, g1)
    pub session :
        entries redb material (λ j. redb.stored db keys (session_key_name j)) count 0 g1 ≡ (r.1, g2)
    pub secret :
        got_or_created (redb.stored db keys ephemeral_secret_name) (material.fill_bytes 32) g2
        ≡ (r.2, r.3)

  read_secrets-Drawn :
      (db : redb.Database) (tx : redb.WriteTx) (count : ℕ) (create_setup : List ℕ) (g : G)
      (r : Secrets redb material)
      → redb.open_write db ≡ ok tx
      → read_secrets redb material tx count create_setup g ≡ pure r
      → Drawn db count create_setup g r
  unfolding read_secrets get_opaque_or_create get_ephemeral_secret_or_create
  read_secrets-Drawn db tx count create_setup g r began h =
      let (p1, setup, h1) =
        bind-ok
          (broaden database (get_or_create redb tx opaque_setup_name (λ q. (create_setup, q)) g)) _
          r h in
      let (opaque, utf8, h2) = bind-ok (from_utf8 material.is_utf8 (p1.0)) _ r h1 in
      let (p2, sessions, h3) = bind-ok (load_session_keys redb material tx count 0 (p1.1)) _ r h2 in
      let (p3, secret, h4) =
        bind-ok
          (broaden database
            (get_or_create redb tx ephemeral_secret_name (material.fill_bytes 32) (p2.1)))
          _ r h3 in
      let (array, sized, h5) = bind-ok (to_array (p3.0)) _ r h4 in
      let same_setup : p1.0 ≡ opaque = gate-same (material.is_utf8 (p1.0)) (p1.0) opaque _ utf8 in
      let same_secret : p3.0 ≡ array = gate-same (length (p3.0) == 32) (p3.0) array _ sized in
      let drawn : Secrets redb material = (opaque, p2.0, array, p3.1) in
      let came : Drawn db count create_setup g drawn = record {
        g1 = p1.1;
        g2 = p2.1;
        opaque =
            get_or_create-gets redb material db tx opaque_setup_name (λ q. (create_setup, q)) g p1
              began setup
            ∙ ap (λ k. (k, p1.1)) same_setup;
        session = load_session_keys-entries redb material db tx count 0 (p1.1) p2 began sessions;
        secret =
            get_or_create-gets redb material db tx ephemeral_secret_name (material.fill_bytes 32)
              (p2.1) p3 began secret
            ∙ ap (λ k. (k, p3.1)) same_secret;
      } in
      subst (λ q. Drawn db count create_setup g q) (pure-eq drawn r h5) came

  -- How a start came to its numbers: from the texts in the table, or from the time and the default.
  pub record Numbered (db : redb.Database) (now : ℕ) (g : G) (r : ℕ × ℕ × G) : Type 0 where
    pub g1 : G
    pub time_bytes : List ℕ
    pub valid_bytes : List ℕ
    pub time :
        got_or_created (redb.stored db keys ephemeral_time_name) (λ q. (to_string now, q)) g
        ≡ (time_bytes, g1)
    pub parsed : parse (2 ^ 64) time_bytes ≡ some r.0
    pub amount :
        got_or_created (redb.stored db keys ephemeral_valid_name) (λ q. (to_string 2, q)) g1
        ≡ (valid_bytes, r.2)
    pub counted : parse (2 ^ 32) valid_bytes ≡ some r.1

  read_numbers-Numbered :
      (db : redb.Database) (tx : redb.WriteTx) (now : ℕ) (g : G) (r : ℕ × ℕ × G)
      → redb.open_write db ≡ ok tx
      → read_numbers redb material tx now g ≡ pure r
      → Numbered db now g r
  unfolding read_numbers get_ephemeral_time_or_create get_ephemeral_valid_or_create
  read_numbers-Numbered db tx now g r began h =
      let (p1, time, h1) =
        bind-ok
          (broaden database (get_or_create redb tx ephemeral_time_name (λ q. (to_string now, q)) g))
          _ r h in
      let (t, parsed, h2) = bind-ok (load_number redb material (2 ^ 64) (p1.0)) _ r h1 in
      let (p2, amount, h3) =
        bind-ok
          (broaden database
            (get_or_create redb tx ephemeral_valid_name (λ q. (to_string 2, q)) (p1.1)))
          _ r h2 in
      let (n, counted, h4) = bind-ok (load_number redb material (2 ^ 32) (p2.0)) _ r h3 in
      let came : Numbered db now g (t, n, p2.1) = record {
        g1 = p1.1;
        time_bytes = p1.0;
        valid_bytes = p2.0;
        time =
            get_or_create-gets redb material db tx ephemeral_time_name (λ q. (to_string now, q)) g
              p1 began time;
        parsed = load_number-parses redb material (2 ^ 64) (p1.0) t parsed;
        amount =
            get_or_create-gets redb material db tx ephemeral_valid_name (λ q. (to_string 2, q))
              (p1.1) p2 began amount;
        counted = load_number-parses redb material (2 ^ 32) (p2.0) n counted;
      } in
      subst (λ q. Numbered db now g q) (pure-eq _ r h4) came

  -- What a start that succeeds came to, and that it wrote the public key at most.
  pub record Started (db : redb.Database) (count : ℕ) (create_setup : List ℕ) (g : G) (now : ℕ)
      (r : redb.Database × AppInitState PublicKey × G) : Type 0 where
    pub g' : G
    pub drawn :
        Drawn db count create_setup g (r.1.opaque, r.1.session_keys, r.1.ephemeral_secret, g')
    pub numbered : Numbered db now g' (r.1.ephemeral_time, r.1.ephemeral_valid, r.2)
    pub kept :
        (t : TableName) (j : List ℕ)
        → (eq_table keys t && same public_key_name j) ≡ false
        → redb.stored r.0 t j ≡ redb.stored db t j

  pub init_app_state-Started :
      (db : redb.Database) (count : ℕ) (create_setup : List ℕ) (public_key : Option PublicKey)
      (g : G) (now : ℕ) (r : redb.Database × AppInitState PublicKey × G)
      → init_app_state redb material db count create_setup public_key g now ≡ pure r
      → Started db count create_setup g now r
  unfolding init_app_state read_app_state
  init_app_state-Started db count create_setup public_key g now r h =
      let (tx, opened, h1) = bind-ok (try database (redb.open_write db)) _ r h in
      let (p, read, h2) =
        bind-ok (read_app_state redb material tx count create_setup public_key g now) _ r h1 in
      let (db', committed, h3) = bind-ok (try database (redb.commit (p.0))) _ r h2 in
      let (p1, secrets, h4) =
        bind-ok (read_secrets redb material tx count create_setup g) _ p read in
      let (p2, numbers, h5) = bind-ok (read_numbers redb material tx now (p1.3)) _ p h4 in
      let (p3, public, h6) = bind-ok (load_public redb material tx public_key) _ p h5 in
      let began : redb.open_write db ≡ ok tx = try-ok database (redb.open_write db) tx opened in
      let state : AppInitState PublicKey = record {
        opaque = p1.0;
        ephemeral_secret = p1.2;
        public_key = p3.1;
        session_keys = p1.1;
        ephemeral_valid = p2.1;
        ephemeral_time = p2.0;
      } in
      let e : (p3.0, state, p2.2) ≡ p = pure-eq (p3.0, state, p2.2) p h6 in
      let whole : (db', state, p2.2) ≡ r =
        ap (λ q. (db', q.1, q.2)) e ∙ pure-eq (db', p.1, p.2) r h3 in
      let came : Started db count create_setup g now (db', state, p2.2) = record {
        g' = p1.3;
        drawn = read_secrets-Drawn db tx count create_setup g p1 began secrets;
        numbered = read_numbers-Numbered db tx now (p1.3) p2 began numbers;
        kept = λ t j other.
            redb.commit-stored (p.0) db' t j (try-ok database _ db' committed)
            ∙ ap (λ q. redb.pending q.0 t j) (sym e)
            ∙ load_public-pending redb material tx public_key p3 public t j other
            ∙ redb.open_write-pending db tx t j began;
      } in
      subst (λ q. Started db count create_setup g now q) whole came
