-- ===== src/Git/Laws.antt =====
-- Laws of the loop of borink-core/borink-git/src/git.rs, and the straight program beside it.
use mono_old.Common.{
  ℕ, suc, ◌+◌, ◌≡◌, refl, ◌∙◌, Bool, true, false, Outcome, returns, panics, Result, ok, err,
  if◌then◌else◌, arith, ◌⊎◌, Bool-cases, inl, inr,
}
use mono_old.Git.Effects.{
  World, Git, GitError, not_allowed, failed, pure, fail, ◌>>=◌, read, effect,
}
use mono_old.Git.{
  FinalResolved, path, absent, GitState, start, Ending, ends, found_repo, check_out,
  fetch_if_missing, after_fetch, resolved, repo_exists, request_address, create_address,
  unwrap_resolved, store_repo_exists, address_exists, clone_store_repo, create_git_address,
  drive_local, drive_exclusive, round, loop, ensure_store_dir, single_loop,
}

outcome-cases :
    {W A E : Type 0} (o : Outcome (W × Result A E))
    → (o ≡ panics)
      ⊎ ((w : W) × (((e : E) × (o ≡ returns (w, err e))) ⊎ ((a : A) × (o ≡ returns (w, ok a)))))
outcome-cases panics = inl refl
outcome-cases (returns (w, err e)) = inr (w, inl (e, refl))
outcome-cases (returns (w, ok a)) = inr (w, inr (a, refl))

module _ (world : World) where
  open world use {W, P, E}

  -- Two ways to go on agree after a program.
  Agree : {A B : Type 0} → Git W E A → (A → Git W E B) → (A → Git W E B) → Type 0
  Agree m f g = (w : W) → (m >>= f) w ≡ (m >>= g) w

  Agree-bind :
      {A B C : Type 0} (m : Git W E A) (k : A → Git W E B) (f g : B → Git W E C)
      → ((a : A) → Agree (k a) f g)
      → Agree (m >>= k) f g
  unfolding Agree
  Agree-bind m k f g same w = elim (outcome-cases (m w)) [
    | inl e ↦ rw e refl
    | inr (w', inl (x, e)) ↦ rw e refl
    | inr (w', inr (a, e)) ↦ rw e (same a w')
  ]

  check_out-Agree :
      {B : Type 0} (d : P) (f g : GitState P → Git W E B)
      → ((r : FinalResolved P) (w : W) → f (resolved r) w ≡ g (resolved r) w)
      → Agree (check_out world d) f g
  unfolding Agree
  check_out-Agree d f g same = Agree-bind (effect (world.copy_dir_all d)) _ f g λ _.
      Agree-bind (effect world.checkout) _ f g λ _.
        Agree-bind (effect world.remove_git_dir) _ f g λ _.
          Agree-bind (effect world.create_path_meta) _ f g λ _.
            Agree-bind (effect world.write_path_meta) _ f g
              λ _ w. same (path world.target_subpath) w

  create_git_address-Agree :
      {B : Type 0} (d : P) (f g : GitState P → Git W E B)
      → ((r : FinalResolved P) (w : W) → f (resolved r) w ≡ g (resolved r) w)
      → Agree (create_git_address world d) f g
  unfolding create_git_address Agree
  create_git_address-Agree d f g same =
      Agree-bind (read (world.commit_exists d)) (fetch_if_missing world d) f g
        λ there. by_fetch there
    where
      by_presence : (there : Bool) → Agree (after_fetch world d there) f g
      by_presence true = check_out-Agree d f g same
      by_presence false = λ w. same absent w

      by_fetch : (there : Bool) → Agree (fetch_if_missing world d there) f g
      by_fetch true = check_out-Agree d f g same
      by_fetch false = Agree-bind (effect (world.repo_fetch d)) _ f g λ _.
          Agree-bind (read (world.commit_exists d)) (after_fetch world d) f g
            λ there. by_presence there

  clone_store_repo-Agree :
      {B : Type 0} (p d : P) (f g : GitState P → Git W E B)
      → ((w : W) → f (repo_exists d) w ≡ g (repo_exists d) w)
      → Agree (clone_store_repo world p d) f g
  unfolding clone_store_repo Agree
  clone_store_repo-Agree p d f g same = Agree-bind (effect (world.repo_clone p)) _ f g λ _.
      Agree-bind (effect (world.create_repo_meta d)) _ f g
        λ _. Agree-bind (effect (world.write_repo_meta d)) _ f g λ _ w. same w

  -- What the states from `request_address` on come to.
  unfoldable pub direct_address : Bool → P → Git W E (Ending P)
  direct_address allow_exclusive d w =
      if world.target_exists w
      then returns (w, ok (ends (path world.target_subpath)))
      else (if allow_exclusive
          then (create_git_address world d >>= unwrap_resolved world) w
          else returns (w, err not_allowed))

  abbrev pub direct_repo : Bool → Bool → Git W E (GitState P)
  direct_repo allow_exclusive true = pure (repo_exists world.repo_dir)
  direct_repo allow_exclusive false =
      if allow_exclusive
      then clone_store_repo world world.repo_path world.repo_dir
      else fail not_allowed

  -- The lookup as a straight program: the store, the repository, then the checkout.
  unfoldable pub direct : Bool → Git W E (Ending P)
  direct allow_exclusive = do
    _ ← ensure_store_dir world allow_exclusive
    there ← read world.try_exists
    _ ← direct_repo allow_exclusive there
    direct_address allow_exclusive world.repo_dir

  loop-create_address :
      (k : ℕ) (d : P) (w : W)
      → loop world (suc (suc k)) (create_address d) true false w
        ≡ (create_git_address world d >>= unwrap_resolved world) w
  unfolding loop round drive_exclusive Agree
  loop-create_address k d w =
      create_git_address-Agree d (λ s. loop world (suc k) s true false) (unwrap_resolved world)
        (λ r w'. refl) w

  loop-request_address :
      (k : ℕ) (d : P) (allow : Bool) (w : W)
      → loop world (suc (suc (suc (suc k)))) (request_address d) allow false w
        ≡ direct_address allow d w
  unfolding loop round drive_local address_exists direct_address
  loop-request_address k d true w = elim (Bool-cases (world.target_exists w)) [
    | inl there ↦ rw there refl
    | inr missing ↦ rw missing (loop-create_address k d w)
  ]
  loop-request_address k d false w = elim (Bool-cases (world.target_exists w)) [
    | inl there ↦ rw there refl
    | inr missing ↦ rw missing refl
  ]

  Agree-all :
      {A B : Type 0} (m : Git W E A) (f g : A → Git W E B)
      → ((a : A) (w : W) → f a w ≡ g a w)
      → Agree m f g
  unfolding Agree
  Agree-all m f g same w = elim (outcome-cases (m w)) [
    | inl e ↦ rw e refl
    | inr (w', inl (x, e)) ↦ rw e refl
    | inr (w', inr (a, e)) ↦ rw e (same a w')
  ]

  loop-found_repo :
      (k : ℕ) (allow there : Bool) (w : W)
      → (found_repo world false there >>= λ s.
            loop world (suc (suc (suc (suc (suc (suc (suc k))))))) s allow false)
          w
        ≡ (direct_repo allow there >>= λ _. direct_address allow world.repo_dir) w
  unfolding loop round drive_local drive_exclusive Agree
  loop-found_repo k allow true w = loop-request_address (suc (suc k)) world.repo_dir allow w
  loop-found_repo k false false w = refl
  loop-found_repo k true false w =
      clone_store_repo-Agree world.repo_path world.repo_dir
        (λ s. loop world (suc (suc (suc (suc (suc k))))) s true false)
        (λ _. direct_address true world.repo_dir)
        (λ w'. loop-request_address k world.repo_dir true w') w

  bind_assoc :
      {A B C : Type 0} (m : Git W E A) (f : A → Git W E B) (g : B → Git W E C) (w : W)
      → ((m >>= f) >>= g) w ≡ (m >>= λ a. f a >>= g) w
  bind_assoc m f g w = elim (outcome-cases (m w)) [
    | inl e ↦ rw e refl
    | inr (w', inl (x, e)) ↦ rw e refl
    | inr (w', inr (a, e)) ↦ rw e refl
  ]

  loop-start :
      (k : ℕ) (allow : Bool) (w : W)
      → loop world (9 + k) start allow false w
        ≡ (read world.try_exists >>= λ there.
              direct_repo allow there >>= λ _. direct_address allow world.repo_dir)
            w
  unfolding loop round drive_local store_repo_exists Agree
  loop-start k allow w =
      let rounds : 9 + k ≡ suc (suc (suc (suc (suc (suc (suc (suc (suc k)))))))) = omega arith in
      rw rounds (
        bind_assoc (read world.try_exists) (found_repo world false) _ w
        ∙ Agree-all (read world.try_exists) _ _ (λ there w'. loop-found_repo k allow there w') w)

  -- Without integrity checks, nine rounds of the loop or more are enough, and they do what the
  -- straight program does: they make the store directory if that is allowed, look for the
  -- repository and clone it if it is missing, look for the checkout and make it if it is missing.
  pub single_loop-direct :
      (k : ℕ) (allow_exclusive : Bool) (w : W)
      → single_loop world (9 + k) allow_exclusive false w ≡ direct allow_exclusive w
  unfolding single_loop Agree direct
  single_loop-direct k allow w =
      Agree-all (ensure_store_dir world allow) _ _ (λ _ w'. loop-start k allow w') w

  abbrev pub read_only_at : Bool → Result Bool E → Result (Ending P) (GitError E)
  read_only_at target (err e) = err (failed e)
  read_only_at target (ok false) = err not_allowed
  read_only_at target (ok true) =
      if target then ok (ends (path world.target_subpath)) else err not_allowed

  direct-read_only :
      (r : Result Bool E) (w : W)
      → (read (λ _. r) >>= λ there.
            direct_repo false there >>= λ _. direct_address false world.repo_dir)
          w
        ≡ returns (w, read_only_at (world.target_exists w) r)
  unfolding direct_address
  direct-read_only (err e) w = refl
  direct-read_only (ok false) w = refl
  direct-read_only (ok true) w = elim (Bool-cases (world.target_exists w)) [
    | inl there ↦ rw there refl
    | inr missing ↦ rw missing refl
  ]

  -- Without the permission to change the store, and without integrity checks, nine rounds or more
  -- leave the world as it is. They yield the path when the repository and the checkout are there,
  -- the error of the lookup when it fails, and otherwise the error that it is not allowed.
  pub single_loop-read_only :
      (k : ℕ) (w : W)
      → single_loop world (9 + k) false false w
        ≡ returns (w, read_only_at (world.target_exists w) (world.try_exists w))
  unfolding direct ensure_store_dir
  single_loop-read_only k w = single_loop-direct k false w ∙ direct-read_only (world.try_exists w) w
