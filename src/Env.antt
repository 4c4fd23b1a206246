-- ===== src/Env.antt =====
-- What the daemon does to its surroundings, and what it hears from them. Every call that may fail, or
-- whose answer the daemon does not control, takes the next answer of the environment; the answers
-- are arbitrary functions of the number of calls made before.
use dnsconfd.Prelude.{ℕ, ◌+◌, Bool, Option, List, ◌∷◌, Text}
use dnsconfd.Ip.{Inet}
use dnsconfd.Server.Table.{Sort}

pub record Env : Type 0 where
  pub net : Inet
  pub sort : Sort
  -- The outcome of `fopen`, `fprintf`, `ferror`, `fclose`, `g_spawn_sync` and the file monitor.
  pub succeeds : ℕ → Bool
  -- `access(path, R_OK) == 0`.
  pub readable : ℕ → Text → Bool
  -- `g_strstrip`.
  pub strip : Text → Text
  -- `g_file_get_contents`.
  pub contents : ℕ → Text → Option Text

pub data Effect : Type 0 where
  -- A file was written and closed: its path and content.
  wrote : Text → Text → Effect
  -- A file was opened for writing, and writing or closing it failed.
  spoiled : Text → Effect
  -- A command was run; the flag says whether it exited with 0.
  ran : List Text → Bool → Effect
  -- `sd_notify`.
  notified : Text → Effect
  -- The D-Bus signal of a new configuration serial.
  signalled : ℕ → Effect
  -- `g_main_loop_quit`.
  quit : Effect

-- The effects stand with the latest first.
pub record World : Type 0 where
  pub calls : ℕ
  pub log : List Effect

abbrev pub tick : World → World
tick w = record w { calls = w.calls + 1 }

abbrev pub emit : Effect → World → World
emit e w = record w { log = e ∷ w.log }

abbrev pub ask : Env → World → Bool × World
ask env w = (env.succeeds w.calls, tick w)
