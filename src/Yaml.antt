-- ===== src/Yaml.antt =====
-- The events of libyaml that src/configuration_parsing/config_file.c tells apart, and the result of a
-- function that reads them.
pub mod Laws
use dnsconfd.Prelude.{Option, none, some, Text}

-- `yaml_event_t`; `other_event` is any event that every loop passes over. A parser is the list of the
-- events that it still gives; a call of `yaml_parser_parse` behind them fails. The library ends every
-- sequence and mapping before the stream.
pub data Event : Type 0 where
  scalar : Text → Event
  sequence_start sequence_end mapping_start mapping_end stream_end other_event : Event

-- `failed` is the return of -1, with `error_string` where the function has set it; `exhausted` stands
-- for a loop that runs out of its fuel.
pub data Outcome {ℓ} (A : Type ℓ) : Type ℓ where
  done : A → Outcome A
  failed : Option Text → Outcome A
  exhausted : Outcome A

-- What follows where there was no error.
abbrev pub on_done {ℓ κ} : {A : Type ℓ} {B : Type κ} → Outcome A → (A → Outcome B) → Outcome B
on_done (done a) f = f a
on_done (failed e) f = failed e
on_done exhausted f = exhausted

-- The result of a conversion that may fail, with the message for that.
abbrev pub or_fail {ℓ κ} : {A : Type ℓ} {B : Type κ} → Text → Option A → (A → Outcome B) → Outcome B
or_fail message none f = failed (some message)
or_fail message (some a) f = f a
