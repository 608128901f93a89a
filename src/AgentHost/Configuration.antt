-- ===== src/AgentHost/Configuration.antt =====
-- load_host_configuration, save_host_configuration and rollback_host_configuration of
-- agent_host.py.
use youk.Prelude.{ℕ, String, Option, none, some, ◌≡◌, refl}

pub record HostConfiguration : Type 0 where
  pub host_id : String
  pub schema_version : ℕ

-- What a call ends in: a value, or the exception of a file that does not parse.
pub data Outcome {ℓ} (A : Type ℓ) : Type ℓ where
  returns : A → Outcome A
  raises : Outcome A

-- `dumps` and `loads` are the json module on the file's content, `none` for text it rejects.
module _ {Text : Type 0} (dumps : HostConfiguration → Text)
    (loads : Text → Option HostConfiguration) where
  -- A path that does not exist is `none`.
  unfoldable pub load_host_configuration : Option Text → Outcome (Option HostConfiguration)
  load_host_configuration none = returns none
  load_host_configuration (some text) = elim (loads text) [
    | none ↦ raises
    | some configuration ↦ returns (some configuration)
  ]

  -- The answer is the previous configuration; the file is replaced at once.
  unfoldable pub save_host_configuration :
      HostConfiguration → Option Text → Outcome (Option HostConfiguration) × Option Text
  unfolding load_host_configuration
  save_host_configuration configuration file = elim (load_host_configuration file) [
    | raises ↦ (raises, file)
    | returns previous ↦ (returns previous, some (dumps configuration))
  ]

  unfoldable pub rollback_host_configuration :
      HostConfiguration → Option Text → Outcome (Option HostConfiguration) × Option Text
  unfolding save_host_configuration
  rollback_host_configuration previous file = save_host_configuration previous file

  load-of_dumps :
      (c : HostConfiguration)
      → loads (dumps c) ≡ some c
      → load_host_configuration (some (dumps c)) ≡ returns (some c)
  unfolding load_host_configuration
  load-of_dumps c e = rw (load_host_configuration, e)

  save-of_load :
      (c : HostConfiguration) (file : Option Text) {previous : Option HostConfiguration}
      → load_host_configuration file ≡ returns previous
      → save_host_configuration c file ≡ (returns previous, some (dumps c))
  unfolding save_host_configuration
  save-of_load c file e = rw (save_host_configuration, e)

  -- For a JSON module that reads back what it has written: saving over a file that loads as
  -- `previous` answers that and makes the file load as the new configuration, and rolling back to
  -- it makes the file load as `previous` again.
  pub rollback-save :
      ((c : HostConfiguration) → loads (dumps c) ≡ some c)
      → (c previous : HostConfiguration) (file : Option Text)
      → load_host_configuration file ≡ returns (some previous)
      → ((save_host_configuration c file).0 ≡ returns (some previous))
        × (load_host_configuration (save_host_configuration c file).1 ≡ returns (some c))
        × (load_host_configuration
              (rollback_host_configuration previous (save_host_configuration c file).1).1
            ≡ returns (some previous))
  unfolding rollback_host_configuration
  rollback-save json c previous file e =
      let saved = save-of_load c file e in
      let again = load-of_dumps c (json c) in
      let undone = save-of_load previous (some (dumps c)) again in
      rw saved (
        refl,
        again,
        rw (rollback_host_configuration, undone) (load-of_dumps previous (json previous)),
      )
