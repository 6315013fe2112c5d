-- ===== src/Tests/CliRuns.antt =====
-- `tename vault` at a terminal with a new vault.
use tename.Prelude.{◌≡◌, refl, true, none, some, [], ◌∷◌}
use tename.Vault.Service.{written}
use tename.Sandbox.Tools.{◌<>◌}
use tename.Cli.VaultCommands.{Texts, Terminal, code, cmd_set, cmd_remove}
use tename.Cli.Credentials.{SetOutcome, cmd_set_lem}
use tename.Tests.VaultRuns.{plain, new_vault, with_secret, without, revoked}

abbrev texts : Texts
texts = record { repr = λ s. "'" <> s <> "'"; text_of = λ e. "locked"; stripped_lower = λ s. s }

abbrev terminal : Terminal
terminal = record { out = []; errors = []; vault = new_vault }

cmd_set_lem_example :
    SetOutcome plain texts "key" "secret" terminal
      (cmd_set plain texts "salt" 0 written "key" (some "secret") terminal)
cmd_set_lem_example = cmd_set_lem plain texts "key" "salt" 0 written "secret" terminal

abbrev stocked : Terminal
stocked = record { out = []; errors = []; vault = with_secret }

abbrev emptied : Terminal
emptied = record { out = "removed credential 'key'" ∷ []; errors = []; vault = without }

removal : cmd_remove plain texts written "key" true none stocked ≡ (emptied, code 0)
unfolding cmd_remove
removal = rw revoked refl
