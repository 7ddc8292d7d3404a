-- ===== src/Main.antt =====
-- src/main.rs: `main`, with what it does to the logging. clap's parser gives the path of the
-- configuration; the file system, the environment, the TOML reader and `run` are arguments.
pub mod Paths
pub mod LogFormat
pub mod Escapes
mod Tests
use kafka_proxy.Base.{
  ℕ, ◌≡◌, refl, ◌∙◌, Bool, true, false, not, ◌||◌, List, [], ◌∷◌, Option, none, some, ◌⊎◌, inl, inr,
  arith, if◌then◌else◌, unwrap_or, Option-cases, Sum-cases, Bool-cases,
}
use kafka_proxy.Text.{Text, codes}
use kafka_proxy.Config.{ProxyConfig}
use kafka_proxy.Config.Sections.{LogConfig}
use kafka_proxy.Config.Values.{ConfigError, load}
use kafka_proxy.Main.Paths.{is_absolute, parent, join}

-- What a subscriber lets through, and the directory of its log file if it has one. Each writes to the
-- standard output.
pub record Subscriber : Type 0 where
  pub filter : Text
  pub log_dir : Option Text

-- What the code uses of tracing: `init`, which panics (`none`) where it cannot set the subscriber of
-- the program, and `set_global_default`, with whether it succeeded.
pub record Tracing : Type 1 where
  pub State : Type 0
  pub global : State → Option Subscriber
  pub init : Subscriber → State → Option State
  pub set_global_default : Subscriber → State → Bool × State

-- What is documented of them: the subscriber of a program can be set once.
pub record SetsOnce (t : Tracing) : Type 0 where
  pub global-init :
      (s : Subscriber) (st : t.State)
      → t.global st ≡ none
      → (st' : t.State) × (t.init s st ≡ some st') × (t.global st' ≡ some s)
  pub global-set_global_default :
      (a b : Subscriber) (st : t.State)
      → t.global st ≡ some a
      → t.global (t.set_global_default b st).1 ≡ some a

-- The world around `main`. `rust_log` is the filter of the environment, if it is there and valid.
pub record Environment : Type 0 where
  pub rust_log : Option Text
  pub read_file : Text → Text ⊎ Text
  pub parse_toml : Text → Text ⊎ ProxyConfig
  pub create_dir_all : Text → Bool
  pub run : ProxyConfig → Option Text

abbrev pub first_subscriber : Environment → Subscriber
first_subscriber env = record { filter = unwrap_or env.rust_log (codes "info"); log_dir = none }

-- A relative directory stands beside the configuration file.
unfoldable pub resolved_dir : Text → Text → Text
resolved_dir config_path log_dir =
    if is_absolute log_dir
    then log_dir
    else join (unwrap_or (parent config_path) (codes ".")) log_dir

abbrev pub file_subscriber : Environment → LogConfig → Text → Subscriber
file_subscriber env log dir = record {
  filter = unwrap_or env.rust_log log.level;
  log_dir = some dir;
}

-- How `main` ends: a panic, an error, or in good order.
pub data Exit : Type 0 where
  panicked : Exit
  config_failed : ConfigError → Exit
  run_failed : Text → Exit
  finished : Exit

module _ (t : Tracing) (env : Environment) where
  -- The switch to a log file. A directory that cannot be made is only warned of.
  unfoldable pub switch_log : Text → LogConfig → t.State → t.State
  unfolding resolved_dir
  switch_log config_path log st = elim log.log_dir [
    | none ↦ st
    | some log_dir ↦
        let dir = resolved_dir config_path log_dir in
        if env.create_dir_all dir
        then (t.set_global_default (file_subscriber env log dir) st).1
        else st
  ]

  abbrev pub exit_of : Option Text → Exit
  exit_of none = finished
  exit_of (some e) = run_failed e

  -- After `init`.
  unfoldable pub main_logged : Text → t.State → Exit × t.State
  unfolding switch_log
  main_logged config_path st = elim (load env.parse_toml (env.read_file config_path)) [
    | inl e ↦ (config_failed e, st)
    | inr config ↦ (exit_of (env.run config), switch_log config_path config.log st)
  ]

  unfoldable pub main : Text → t.State → Exit × t.State
  unfolding main_logged
  main config_path st = elim (t.init (first_subscriber env) st) [
    | none ↦ (panicked, st)
    | some st' ↦ main_logged config_path st'
  ]

-- What reaches the task that waits for SIGINT and SIGTERM.
pub data Signal : Type 0 where
  interrupt terminate hangup : Signal

abbrev pub cancels : Signal → Bool
cancels hangup = false
cancels _ = true

-- Whether the token is cancelled after the signals.
unfoldable pub cancelled_after : List Signal → Bool
cancelled_after [] = false
cancelled_after (s ∷ ss) = cancels s || cancelled_after ss

module _ (t : Tracing) (once : SetsOnce t) (env : Environment) where
  open once use {global-init, global-set_global_default}

  switch_log-global :
      (config_path : Text) (log : LogConfig) (st : t.State) (a : Subscriber)
      → t.global st ≡ some a
      → t.global (switch_log t env config_path log st) ≡ some a
  unfolding switch_log
  switch_log-global config_path log st a set = elim (Option-cases log.log_dir) [
    | inl e ↦ rw (e, switch_log) set
    | inr (dir, e) ↦
        let b = file_subscriber env log (resolved_dir config_path dir) in
        elim (Bool-cases (env.create_dir_all (resolved_dir config_path dir))) [
          | inl made ↦ rw (e, made, switch_log) (global-set_global_default a b st set)
          | inr failed ↦ rw (e, failed, switch_log) set
        ]
  ]

  -- No log is ever written to a file. Whatever the configuration says, and whether or not it can be
  -- loaded, a `main` that is the first to set a subscriber leaves the one in force
  -- that it began with: to the standard output only, with the level of the environment or "info".
  pub main-first_subscriber :
      (config_path : Text) (st : t.State)
      → t.global st ≡ none
      → t.global (main t env config_path st).1 ≡ some (first_subscriber env)
  unfolding main main_logged
  main-first_subscriber config_path st fresh =
      let (st', e, set) = global-init (first_subscriber env) st fresh in
      elim (Sum-cases (load env.parse_toml (env.read_file config_path))) [
        | inl (x, q) ↦ rw (e, q, main, main_logged) set
        | inr (config, q) ↦
            rw (e, q, main, main_logged)
              (switch_log-global config_path config.log st' (first_subscriber env) set)
      ]
