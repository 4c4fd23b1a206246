-- ===== src/Client/Update/Waiting.antt =====
-- When the update command of src/cli_commands/cli_update.c succeeds.
use dnsconfd.Prelude.{ℕ, ◌≡◌, ◌≢◌, ◌⊎◌, Option, some, List, [], ◌∷◌, Text, codes}
use dnsconfd.Client.Update.{Signal}

-- The serial is among the changed properties, under its name.
abbrev pub HasSerial : ℕ → List (Text × ℕ) → Type 0
HasSerial serial [] = ⊥
HasSerial serial ((key, value) ∷ changed) =
    ((key ≡ codes "configuration_serial") × (value ≡ serial)) ⊎ HasSerial serial changed

-- The signal is of the interface of the daemon, and tells of the serial.
abbrev pub Tells : ℕ → Signal → Type 0
Tells serial signal =
    (signal.interface ≡ codes "com.redhat.dnsconfd.Manager") × HasSerial serial signal.changed

-- One of the signals tells of the serial.
abbrev pub Announces : ℕ → List Signal → Type 0
Announces serial [] = ⊥
Announces serial (s ∷ signals) = Tells serial s ⊎ Announces serial signals

-- The serial of the reply is there already or is told of.
abbrev pub IsConfirmed : ℕ → Option ℕ → List Signal → Type 0
IsConfirmed serial present signals = (present ≡ some serial) ⊎ Announces serial signals

-- The reply carries a serial other than 0, which is confirmed.
abbrev pub IsAnswered : Option ℕ → Option ℕ → List Signal → Type 0
IsAnswered reply present signals =
    (serial : ℕ) × (reply ≡ some serial) × (serial ≢ 0) × IsConfirmed serial present signals
