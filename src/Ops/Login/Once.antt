-- ===== src/Ops/Login/Once.antt =====
-- A login is finished once.
use mono_old.Common.{
  ℕ, ◌≡◌, refl, sym, ap, ◌∙◌, subst, Bool, true, false, not, ◌||◌, List, returns, panics, Result,
  err, Returns, if◌then◌else◌,
}
use mono_old.Rmp.{Rmp}
use mono_old.Crypto.{Cipher}
use mono_old.Users.{Tables}
use mono_old.RangeSet.Deque.Chain.{held}
use mono_old.RangeSet.Remembered.{Within, held-Within}
use mono_old.Proof.Names.{same}
use mono_old.Ephemeral.Content.{EphemeralContent}
use mono_old.Ops.Answer.{ServerError, Stateful, change_error, ephemeral_refused, pure}
use mono_old.Ops.ProofToken.{AppState}
use mono_old.Ops.ProofToken.Once.{Sound, Later, counter_used-adds, Later-held, pairs}
use mono_old.Ops.Register.{Opaque}
use mono_old.Ops.Login.{
  Finished, answer_of, read_entry, finish_used, after_counter, ask_counter, after_entry,
  login_finish,
}

returned :
    {S E A : Type 0} (t s' : S) (utf8 : Bool) (a answer : Result A E)
    → (let m : Stateful S E A = returns (t, a) in if utf8 then m else panics) ≡ returns (s', answer)
    → t ≡ s'
returned t s' true a answer h = ap (λ p. p.0) (pairs _ _ h)
returned t s' false a answer h = cc

gate-keeps :
    {S E A : Type 0} (t s' : S) (refused : Bool) (e : E) (m : Stateful S E A) (answer : Result A E)
    → (m ≡ returns (s', answer) → t ≡ s')
    → (if refused then returns (t, err e) else m) ≡ returns (s', answer)
    → t ≡ s'
gate-keeps t s' true e m answer k h = ap (λ p. p.0) (pairs _ _ h)
gate-keeps t s' false e m answer k h = k h

module _ (rmp : Rmp) (c : Cipher) (derive_key : List ℕ → ℕ → c.SymmetricKey)
    (create_hash : List ℕ → List ℕ) {PublicKey StoreError OpaqueError : Type 0}
    (opaque : Opaque OpaqueError) (tables : Tables StoreError) where
  -- The counter is asked, and its answer is whether the number is held.
  pub ask_counter-asks :
      (request hash made_for : List ℕ) (s : AppState PublicKey) (later count expires : ℕ)
      (entry : EphemeralContent)
      → Sound s
      → Within s.compact_set count
      → (t : AppState PublicKey) × (ask_counter rmp c derive_key create_hash opaque tables request s
            later
            (entry, hash, (count, expires, made_for))
          ≡ finish_used rmp c derive_key create_hash opaque tables request entry hash made_for
              (t, held s.compact_set count))
        × Sound t
        × (held t.compact_set count ≡ true)
  unfolding ask_counter
  ask_counter-asks request hash made_for s later count expires entry chain within =
      let (r, run, facts) = counter_used-adds s count expires later chain within in
      let asked : ask_counter rmp c derive_key create_hash opaque tables request s later
            (entry, hash, (count, expires, made_for))
          ≡ finish_used rmp c derive_key create_hash opaque tables request entry hash made_for r =
        ap (after_counter rmp c derive_key create_hash opaque tables request entry hash made_for)
          run in
      (
        r.0,
        asked
            ∙ ap
                (λ b.
                  finish_used rmp c derive_key create_hash opaque tables request entry hash made_for
                    (r.0, b))
                facts.0,
        facts.1,
        facts.2,
      )

  -- Once a login came to the counter with its number within the chain of the range set, and the call
  -- returned, every later call that reads an ephemeral of that number is refused, as long as each
  -- number that was asked for in between was within the chain when it was asked for. In between the
  -- state may change otherwise, apart from the range set.
  pub login_finish-once :
      (s s' u : AppState PublicKey) (request later_request nonce later_nonce : List ℕ)
      (time later time' later' : ℕ) (entry later_entry : EphemeralContent)
      (hash later_hash made_for later_made : List ℕ) (count expires later_expires : ℕ)
      (answer : Result Finished (ServerError StoreError OpaqueError))
      → Sound s
      → read_entry rmp c derive_key create_hash opaque tables s nonce time later
        ≡ pure (entry, hash, (count, expires, made_for))
      → Within s.compact_set count
      → login_finish rmp c derive_key create_hash opaque tables s request nonce time later
        ≡ returns (s', answer)
      → Later s' u
      → read_entry rmp c derive_key create_hash opaque tables u later_nonce time' later'
        ≡ pure (later_entry, later_hash, (count, later_expires, later_made))
      → Returns
          (login_finish rmp c derive_key create_hash opaque tables u later_request later_nonce time'
            later')
          λ r. r.1 ≡ err (change_error ephemeral_refused)
  unfolding login_finish after_entry
  login_finish-once s s' u request later_request nonce later_nonce time later time' later' entry
        later_entry hash later_hash made_for later_made count expires later_expires answer chain
        reads within first later_state reads' =
      let (t, asked, chain', h) =
        ask_counter-asks request hash made_for s later count expires entry chain within in
      let came : ask_counter rmp c derive_key create_hash opaque tables request s later
            (entry, hash, (count, expires, made_for))
          ≡ returns (s', answer) =
        sym (ap (after_entry rmp c derive_key create_hash opaque tables request s later) reads)
        ∙ first in
      let same_state : t ≡ s' =
        gate-keeps t s' (held s.compact_set count || not (same hash made_for))
          (change_error ephemeral_refused) _ answer
          (λ k.
            returned t s' (rmp.is_utf8 entry.data_bytes)
              (answer_of entry.user_id hash (opaque.login_server_finish request entry.data_bytes))
              answer k)
          (sym asked ∙ came) in
      let (chain'', h') =
        Later-held count (subst (λ w. Sound w) same_state chain')
          (subst (λ w. held w.compact_set count ≡ true) same_state h) later_state in
      let (t2, asked2, chain2, h2) =
        ask_counter-asks later_request later_hash later_made u later' count later_expires
          later_entry chain'' (held-Within 64 u.compact_set count chain'' h') in
      (
        (t2, err (change_error ephemeral_refused)),
        ap (after_entry rmp c derive_key create_hash opaque tables later_request u later') reads'
            ∙ asked2
            ∙ ap
                (λ b.
                  finish_used rmp c derive_key create_hash opaque tables later_request later_entry
                    later_hash later_made (t2, b))
                h',
        refl,
      )
