-- ===== src/Git.antt =====
-- The state machine that looks up or makes the checkout of a commit,
-- borink-core/borink-git/src/git.rs. The file system and the git program are parameters.
pub mod Effects
pub mod Laws
use mono_old.Common.{
  ℕ, zero, suc, Bool, true, false, not, ◌&&◌, Outcome, returns, panics, Result, ok, err,
  if◌then◌else◌,
}
use mono_old.Git.Effects.{
  Done, World, Git, GitError, not_allowed, failed, pure, fail, ◌>>=◌, read, effect, panic,
}

pub data FinalResolved (P : Type 0) : Type 0 where
  path : P → FinalResolved P
  absent : FinalResolved P

pub data GitState (P : Type 0) : Type 0 where
  start : GitState P
  request_repo : GitState P
  repo_exists : P → GitState P
  repo_absent : P → P → GitState P
  request_address : P → GitState P
  address_absent : P → GitState P
  create_repo : P → P → GitState P
  create_address : P → GitState P
  resolved : FinalResolved P → GitState P

-- How the loop ends: with a result, or with the fuel used up.
pub data Ending (P : Type 0) : Type 0 where
  ends : FinalResolved P → Ending P
  out_of_fuel : Ending P

pub data StateHandler : Type 0 where
  locally : StateHandler
  exclusively : StateHandler
  finally : StateHandler

module _ (world : World) where
  open world use {W, P, E}

  abbrev pub handler : GitState P → StateHandler
  handler (create_repo p d) = exclusively
  handler (create_address d) = exclusively
  handler (resolved r) = finally
  handler s = locally

  abbrev pub found_repo : Bool → Bool → Git W E (GitState P)
  found_repo verify_integrity false = pure (repo_absent world.repo_path world.repo_dir)
  found_repo verify_integrity true =
      if verify_integrity then panic else pure (repo_exists world.repo_dir)

  pub store_repo_exists : Bool → Git W E (GitState P)
  store_repo_exists verify_integrity = do
    there ← read world.try_exists
    found_repo verify_integrity there

  pub address_exists : P → Bool → Git W E (GitState P)
  address_exists store_repo_dir verify_integrity = λ w.
      if world.target_exists w
      then (if verify_integrity
          then panics
          else returns (w, ok (resolved (path world.target_subpath))))
      else returns (w, ok (address_absent store_repo_dir))

  pub clone_store_repo : P → P → Git W E (GitState P)
  clone_store_repo store_repo_path store_repo_dir = do
    _ ← effect (world.repo_clone store_repo_path)
    _ ← effect (world.create_repo_meta store_repo_dir)
    _ ← effect (world.write_repo_meta store_repo_dir)
    pure (repo_exists store_repo_dir)

  abbrev pub check_out : P → Git W E (GitState P)
  check_out store_repo_dir = do
    _ ← effect (world.copy_dir_all store_repo_dir)
    _ ← effect world.checkout
    _ ← effect world.remove_git_dir
    _ ← effect world.create_path_meta
    _ ← effect world.write_path_meta
    pure (resolved (path world.target_subpath))

  -- Is the commit there after a fetch?
  abbrev pub after_fetch : P → Bool → Git W E (GitState P)
  after_fetch store_repo_dir true = check_out store_repo_dir
  after_fetch store_repo_dir false = pure (resolved absent)

  abbrev pub fetch_if_missing : P → Bool → Git W E (GitState P)
  fetch_if_missing store_repo_dir true = check_out store_repo_dir
  fetch_if_missing store_repo_dir false = do
    _ ← effect (world.repo_fetch store_repo_dir)
    there ← read (world.commit_exists store_repo_dir)
    after_fetch store_repo_dir there

  pub create_git_address : P → Git W E (GitState P)
  create_git_address store_repo_dir = do
    there ← read (world.commit_exists store_repo_dir)
    fetch_if_missing store_repo_dir there

  pub drive_local : GitState P → Bool → Git W E (GitState P)
  drive_local start verify_integrity = pure request_repo
  drive_local request_repo verify_integrity = store_repo_exists verify_integrity
  drive_local (repo_exists d) verify_integrity = pure (request_address d)
  drive_local (repo_absent p d) verify_integrity = pure (create_repo p d)
  drive_local (request_address d) verify_integrity = address_exists d verify_integrity
  drive_local (address_absent d) verify_integrity = pure (create_address d)
  drive_local (create_repo p d) verify_integrity = panic
  drive_local (create_address d) verify_integrity = panic
  drive_local (resolved r) verify_integrity = panic

  pub drive_exclusive : GitState P → Git W E (GitState P)
  drive_exclusive (create_repo p d) = clone_store_repo p d
  drive_exclusive (create_address d) = create_git_address d
  drive_exclusive s = panic

  abbrev pub unwrap_resolved : GitState P → Git W E (Ending P)
  unwrap_resolved (resolved r) = pure (ends r)
  unwrap_resolved s = panic

  -- One round of the loop, up to the next state.
  pub round : GitState P → Bool → Bool → Git W E (GitState P)
  round s allow_exclusive verify_integrity = elim (handler s) [
    | exclusively ↦ if allow_exclusive then drive_exclusive s else fail not_allowed
    | _ ↦ drive_local s verify_integrity
  ]

  pub loop : ℕ → GitState P → Bool → Bool → Git W E (Ending P)
  loop zero s allow_exclusive verify_integrity = pure out_of_fuel
  loop (suc fuel) s allow_exclusive verify_integrity = elim (handler s) [
    | finally ↦ unwrap_resolved s
    | _ ↦ do
      s' ← round s allow_exclusive verify_integrity
      loop fuel s' allow_exclusive verify_integrity
  ]

  -- Only with the permission to change it is a missing store directory made.
  unfoldable pub ensure_store_dir : Bool → Git W E Done
  ensure_store_dir allow_exclusive = λ w.
      if allow_exclusive && not (world.store_dir_exists w)
      then effect world.create_store_dir w
      else returns (w, ok tt)

  pub single_loop : ℕ → Bool → Bool → Git W E (Ending P)
  single_loop fuel allow_exclusive verify_integrity = do
    _ ← ensure_store_dir allow_exclusive
    loop fuel start allow_exclusive verify_integrity
