-- ===== src/Redis.antt =====
-- The redis-ib client as the gateway uses it: a parameter of the model, with decoded replies.
use bifrost_platform_plugin.Prelude.{ℕ, List, Option}
use bifrost_platform_plugin.Text.{Text, Fields}
use bifrost_platform_plugin.Effects.{Io}

-- One stream of an XREADGROUP reply: its name, and its entries with their fields. The fields are
-- `none` where the client gives no dict.
abbrev pub StreamReply : Type 0
StreamReply = Text × List (Text × Option Fields)

-- A command that a pipeline queues.
pub data PipeCommand : Type 0 where
  delete : Text → PipeCommand
  sadd : Text → List Text → PipeCommand
  hset : Text → Fields → PipeCommand

pub record Redis (W : Type 0) : Type 0 where
  -- SET key value, with EX seconds where given
  pub set : Text → Text → Option ℕ → Io W (Unit {0})
  pub get : Text → Io W (Option Text)
  pub delete : Text → Io W (Unit {0})
  pub publish : Text → Text → Io W (Unit {0})
  pub smembers : Text → Io W (List Text)
  pub sadd : Text → List Text → Io W (Unit {0})
  pub srem : Text → List Text → Io W (Unit {0})
  pub hgetall : Text → Io W Fields
  pub hget : Text → Text → Io W (Option Text)
  pub hset : Text → Fields → Io W (Unit {0})
  pub hdel : Text → List Text → Io W (Unit {0})
  -- stream, group, entry
  pub xack : Text → Text → Text → Io W (Unit {0})
  -- stream, group; with id "0" and mkstream
  pub xgroup_create : Text → Text → Io W (Unit {0})
  -- group, consumer, streams (each from ">"), count, block in milliseconds
  pub xreadgroup : Text → Text → List Text → ℕ → ℕ → Io W (List StreamReply)
  -- the queued commands, run by execute()
  pub pipeline : List PipeCommand → Io W (Unit {0})
