-- ===== src/Command/Exits.antt =====
-- What the exit codes of cmd/blackboxd/main.go say.
use blackboxd.Prelude.{
  ◌≡◌, ◌↔◌, refl, ap, inl, inr, Bool, List, [], ◌∷◌, Option, none, some, ok, err, Result-cases,
}
use blackboxd.Bytes.{Bytes, bytes, equal}
use blackboxd.Config.Schema.{Config}
use blackboxd.Config.Load.{load}
use blackboxd.Config.Validate.{ConfigError}
use blackboxd.Config.Load.Loaded.{IsLoaded, load-IsLoaded}
use blackboxd.Oneshot.Dump.{exit_ok}
use blackboxd.Command.{
  ValidateArgs, Flags, Host, exit_of_load, validate_args, run_validate, dispatch,
}

module _ {V : Type 0} (host : Host V) where
  -- The arguments of `validate` are read as one path, and what is there is a configuration that `Load` returns.
  pub record IsValidated (parsed : Option ValidateArgs) : Type 0 where
    pub skip : Bool
    pub path : Bytes
    pub config : Config V
    pub one_path : parsed ≡ some (record { skip_fs_checks = skip; args = path ∷ [] })
    pub loads : load host.toml host.fs host.read_file skip host.known path ≡ ok config
    pub loaded : IsLoaded V host.fs skip host.known path config

  exit_of_load_ok :
      (skip : Bool) (path : Bytes)
      → exit_of_load host (load host.toml host.fs host.read_file skip host.known path) ≡ exit_ok
      → IsValidated (some (record { skip_fs_checks = skip; args = path ∷ [] }))
  unfolding exit_of_load
  exit_of_load_ok skip path h =
      elim (Result-cases (load host.toml host.fs host.read_file skip host.known path)) [
        | inl (config, loads) ↦ record {
          skip = skip;
          path = path;
          config = config;
          one_path = refl;
          loads = loads;
          loaded = load-IsLoaded host.toml host.fs skip host.known host.read_file path config loads;
        }
        | inr (e, fails) ↦ absurd (refused_exit e (rw fails at h))
      ]
    where
      refused_exit : (e : ConfigError) → exit_of_load host (err e) ≡ exit_ok → ⊥
      refused_exit e k = absurd (cc)

  run_validate-IsValidated :
      (parsed : Option ValidateArgs) → run_validate host parsed ≡ exit_ok → IsValidated parsed
  unfolding run_validate validate_args
  run_validate-IsValidated none h = absurd (cc)
  run_validate-IsValidated (some a) h = on_args a.skip_fs_checks a.args h
    where
      on_args :
          (skip : Bool) (args : List Bytes)
          → validate_args host skip args ≡ exit_ok
          → IsValidated (some (record { skip_fs_checks = skip; args = args }))
      on_args skip [] k = absurd (cc)
      on_args skip (path ∷ []) k = exit_of_load_ok skip path k
      on_args skip (path ∷ more ∷ args) k = absurd (cc)

  -- The command validate writes no entry and exits with 0 exactly if its arguments are read as
  -- flags and one path, and Load returns for these a configuration, which is then one as IsLoaded
  -- describes it.
  pub dispatch-validate_iff :
      (flags : Flags) (args : List Bytes)
      → (dispatch host flags (bytes "validate" ∷ args) ≡ ([], exit_ok))
        ↔ IsValidated (flags.parse_validate args)
  unfolding dispatch equal run_validate validate_args exit_of_load
  dispatch-validate_iff flags args = (
    λ h. run_validate-IsValidated (flags.parse_validate args) (ap (λ r. r.1) h),
    λ v. rw (v.one_path, v.loads) refl,
  )
