-- ===== src/Tests/Starts.antt =====
-- Runs of the start of an application on a store without keys, and on one that holds them.
use mono_old.Common.{ℕ, ◌+◌, ◌≡◌, refl, true, Option, none, some, List, [], ◌∷◌, replicate, arith}
use mono_old.Decimal.{digits, to_string, parse_digits, parse}
use mono_old.Store.{keys}
use mono_old.Store.Keys.{
  opaque_setup_name, session_key_name, ephemeral_secret_name, ephemeral_time_name,
  ephemeral_valid_name, public_key_name, get_or_create, overwrite_or_get, get_opaque_or_create,
  get_session_key_or_create, get_ephemeral_secret_or_create, get_ephemeral_time_or_create,
  get_ephemeral_valid_or_create, overwrite_public_key_or_get,
}
use mono_old.Ops.Answer.{pure}
use mono_old.State.{
  Material, AppInitState, load_session_keys, load_number, load_public, read_secrets, read_numbers,
  read_app_state, init_app_state,
}
use mono_old.State.Stored.{
  IsNew, IsGenerated, IsSaved, init_app_state-forgets, init_app_state-restores,
}
use mono_old.Tests.Accounts.{Tabled, tabled, nothing, insert_into}

abbrev first_byte : List ℕ → Option ℕ
first_byte [] = none
first_byte (b ∷ bytes) = some b

-- The generator repeats a number, and counts it up. A public key is one byte.
abbrev material : Material ℕ ℕ
material = record {
  fill_bytes = λ n g. (replicate n g, g + 1);
  is_utf8 = λ bytes. true;
  load_public_key = first_byte;
  save_public_key = λ k. k ∷ [];
}

-- What a start computes by.
computes : Unit {0}
unfolding digits to_string parse_digits parse session_key_name get_or_create overwrite_or_get
    get_opaque_or_create get_session_key_or_create get_ephemeral_secret_or_create
    get_ephemeral_time_or_create get_ephemeral_valid_or_create overwrite_public_key_or_get
    load_session_keys load_number load_public read_secrets read_numbers read_app_state
    init_app_state
computes = tt

abbrev generated : AppInitState ℕ
generated = record {
  opaque = 1 ∷ 2 ∷ [];
  ephemeral_secret = replicate 32 9;
  public_key = 5;
  session_keys = replicate 32 7 ∷ replicate 32 8 ∷ [];
  ephemeral_valid = 2;
  ephemeral_time = 105;
}

abbrev only_public : Tabled
only_public = insert_into nothing keys public_key_name (5 ∷ [])

nothing-IsNew : IsNew tabled material nothing
nothing-IsNew = record {
  opaque = refl;
  session = λ i. refl;
  secret = refl;
  time = refl;
  amount = refl;
}

is_generated :
    init_app_state tabled material nothing 2 (1 ∷ 2 ∷ []) (some 5) 7 105
    ≡ pure (only_public, generated, 10)
is_generated = unfold computes in refl

init_app_state-forgets_example :
    IsGenerated tabled material 2 (1 ∷ 2 ∷ []) 7 105 generated 10
    × IsNew tabled material only_public
init_app_state-forgets_example =
    init_app_state-forgets tabled material nothing only_public 2 (1 ∷ 2 ∷ []) (some 5) 7 10 105
      generated nothing-IsNew (omega arith) is_generated

abbrev holding : Tabled
holding =
    insert_into
      (insert_into
        (insert_into
          (insert_into
            (insert_into (insert_into only_public keys opaque_setup_name (1 ∷ 2 ∷ [])) keys
              (session_key_name 0) (replicate 32 7))
            keys (session_key_name 1) (replicate 32 8))
          keys ephemeral_secret_name (replicate 32 9))
        keys ephemeral_time_name (to_string 105))
      keys ephemeral_valid_name (to_string 2)

holding-IsSaved : IsSaved tabled material holding generated
holding-IsSaved = record {
  opaque = unfold computes in refl;
  session = (unfold computes in refl, (unfold computes in refl, tt));
  secret = unfold computes in refl;
  time = unfold computes in refl;
  amount = unfold computes in refl;
  short_time = omega arith;
  short_amount = omega arith;
}

is_restored :
    init_app_state tabled material holding 2 (3 ∷ []) none 40 900 ≡ pure (holding, generated, 40)
is_restored = unfold computes in refl

init_app_state-restores_example : (generated ≡ generated) × ((let g : ℕ = 40 in g) ≡ 40)
init_app_state-restores_example =
    init_app_state-restores tabled material holding holding (3 ∷ []) none 40 40 900 generated
      generated holding-IsSaved is_restored
