-- ===== src/Tests/Logins.antt =====
-- A run of a session: created, opened and checked against the stored user.
use mono_old.Common.{
  ℕ, ◌≡◌, refl, Option, none, some, List, [], ◌∷◌, ◌++◌, returns, ok, err, if◌then◌else◌, take,
  replicate, arith,
}
use mono_old.Crypto.{symmetric_encrypt}
use mono_old.Users.{UserPassword, Tables, get_login}
use mono_old.Users
use mono_old.Claims.{Claims}
use mono_old.Proof.Names.{same}
use mono_old.Session.Content.{SessionContent}
use mono_old.Session.Status.{untracked, valid, session_status}
use mono_old.Session.Bytes.{SessionCreate, RmpSerde, Fits, to_bytes}
use mono_old.Session.Encrypted.{created, create}
use mono_old.Ops.Sessions.{session_refused, view_claims, check_session}
use mono_old.Ops.Sessions.Created.{check_session-created}
use mono_old.Tests.Instances.{cells}
use mono_old.Tests.Tokens.{lock, tag, box, only_opens, iv}
use mono_old.Tests.Access.{number_order}

abbrev read_about : List ℕ → Option SessionCreate
read_about (issued ∷ (expires ∷ user_id)) =
    some (record { user_id = user_id; issued = issued; expires = expires })
read_about [] = none
read_about (issued ∷ []) = none

abbrev numbers : RmpSerde
numbers = record {
  to_vec = λ a. a.issued ∷ (a.expires ∷ a.user_id);
  from_slice = read_about;
  from_slice-to_vec = λ a. refl;
}

abbrev pub padded : List ℕ → List ℕ
padded file = take 32 (file ++ replicate 32 0)

abbrev pub user : UserPassword
user = record { user_id = 97 ∷ []; password_file = 9 ∷ [] }

-- One user, and no session that is tracked.
abbrev tables : Tables ℕ
tables = record {
  get_user = λ user_id.
      ok (if same user_id (97 ∷ []) then some (2 ∷ (1 ∷ (97 ∷ (1 ∷ (9 ∷ []))))) else none);
  get_session = λ hash. ok none;
  sha512 = λ session. session;
}

abbrev names : List ℕ → Option (Claims ℕ ℕ)
names bytes = some (record { keys = bytes; values = bytes })

abbrev content : SessionContent
content = created (97 ∷ []) 3600 (padded (9 ∷ [])) (3 ∷ 4 ∷ []) 100

-- What a created session computes by.
computes : Unit {0}
unfolding lock tag symmetric_encrypt to_bytes create valid session_status Users.serialize
computes = tt

abbrev session : List ℕ
session = replicate 16 7 ++ (to_bytes cells numbers content ++ iv)

content-Fits : Fits cells numbers content
content-Fits = record { about = omega arith; pw_file_hash = refl; session_claims = omega arith }

is_created :
    create cells numbers box (97 ∷ []) 3600 (padded (9 ∷ [])) (3 ∷ 4 ∷ []) 7 100 iv
    ≡ returns session
is_created = unfold computes in refl

check_session-created_example :
    check_session cells numbers box padded names tables ((6 ∷ []) ++ (7 ∷ [])) session 200
    ≡ returns (
        if same (padded (9 ∷ [])) (padded (9 ∷ []))
        then view_claims names (3 ∷ 4 ∷ [])
        else err session_refused)
check_session-created_example =
    check_session-created tables cells numbers box padded names (6 ∷ []) 7 [] user (padded (9 ∷ []))
      (3 ∷ 4 ∷ []) iv session 3600 100 200 untracked refl (only_opens (6 ∷ 7 ∷ []) 7 iv _)
      content-Fits is_created (unfold computes in refl) (unfold computes in refl) refl (omega arith)
      refl (omega arith) refl (unfold computes in refl)
