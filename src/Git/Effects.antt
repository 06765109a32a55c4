-- ===== src/Git/Effects.antt =====
-- The file system and the git program as the state machine of borink-core/borink-git/src/git.rs
-- calls them, and programs that change the world, fail or panic. A query does not change it.
use mono_old.Common.{Bool, Outcome, returns, panics, Result, ok, err}

-- The result of a command that yields nothing.
abbrev pub Done : Type 0
Done = Unit

pub record World : Type 1 where
  pub W : Type 0
  pub P : Type 0
  pub E : Type 0
  -- Of the address that is asked for: the directories of its repository and of its checkout.
  pub repo_path : P
  pub repo_dir : P
  pub target_subpath : P
  pub store_dir_exists : W → Bool
  pub create_store_dir : W → W × Result Done E
  pub try_exists : W → Result Bool E
  pub target_exists : W → Bool
  pub repo_clone : P → W → W × Result Done E
  pub create_repo_meta : P → W → W × Result Done E
  pub write_repo_meta : P → W → W × Result Done E
  pub commit_exists : P → W → Result Bool E
  pub repo_fetch : P → W → W × Result Done E
  pub copy_dir_all : P → W → W × Result Done E
  pub checkout : W → W × Result Done E
  pub remove_git_dir : W → W × Result Done E
  pub create_path_meta : W → W × Result Done E
  pub write_path_meta : W → W × Result Done E

pub data GitError (E : Type 0) : Type 0 where
  not_allowed : GitError E
  failed : E → GitError E

abbrev pub Git : Type 0 → Type 0 → Type 0 → Type 0
Git W E A = W → Outcome (W × Result A (GitError E))

abbrev lifted : {A E : Type 0} → Result A E → Result A (GitError E)
lifted (ok a) = ok a
lifted (err e) = err (failed e)

module _ {W E : Type 0} where
  abbrev pub pure : {A : Type 0} → A → Git W E A
  pure a w = returns (w, ok a)

  abbrev pub fail : {A : Type 0} → GitError E → Git W E A
  fail e w = returns (w, err e)

  abbrev pub panic : {A : Type 0} → Git W E A
  panic w = panics

  -- The `?` operator: an error ends the program, with the world as it is.
  abbrev pub then_run :
      {A B : Type 0}
      → Outcome (W × Result A (GitError E))
      → (A → Git W E B)
      → Outcome (W × Result B (GitError E))
  then_run panics f = panics
  then_run (returns (w, err e)) f = returns (w, err e)
  then_run (returns (w, ok a)) f = f a w

  infixl 5 ◌>>=◌
  abbrev pub ◌>>=◌ : {A B : Type 0} → Git W E A → (A → Git W E B) → Git W E B
  (m >>= f) w = then_run (m w) f

  abbrev pub read : {A : Type 0} → (W → Result A E) → Git W E A
  read query w = returns (w, lifted (query w))

  abbrev pub effect : {A : Type 0} → (W → W × Result A E) → Git W E A
  effect command w = let r = command w in returns (r.0, lifted r.1)
