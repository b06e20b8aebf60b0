-- ===== src/Models.antt =====
-- src/mcdash/models.py, k8s.py and config.py: the data that the parts exchange.
use k3s_minecraft.Prelude.{
  Text, codes, ℕ, Bool, true, false, ◌&&◌, ◌||◌, Option, none, List, [], leb, ltb, not,
}

pub data ServerType : Type 0 where
  vanilla forge : ServerType

pub data WorldState : Type 0 where
  seeding starting running snapshotting stopped failed_state : WorldState

-- `WorldSettings`; its whole numbers are natural numbers here.
pub record WorldSettings : Type 0 where
  pub version : Text
  pub server_type : ServerType
  pub memory : Text
  pub gamemode : Text
  pub force_gamemode : Bool
  pub difficulty : Text
  pub pvp : Bool
  pub enable_command_block : Bool
  pub motd : Text
  pub max_world_size : ℕ
  pub whitelist : List Text
  pub open_to_all : Bool
  pub ops : List Text
  pub seed : Text
  pub level_type : Text
  pub hardcore : Bool
  pub view_distance : Option ℕ
  pub simulation_distance : Option ℕ
  pub spawn_protection : Option ℕ
  pub pause_when_empty_seconds : Option ℕ
  pub sync_chunk_writes : Option Bool
  pub allow_flight : Option Bool
  pub max_players : Option ℕ
  pub broadcast_rcon_to_ops : Option Bool
  pub broadcast_console_to_ops : Option Bool
  pub use_aikar_flags : Bool
  pub forge_version : Text

-- The defaults of the class.
abbrev pub default_settings : WorldSettings
default_settings = record {
  version = codes "LATEST";
  server_type = vanilla;
  memory = codes "4Gi";
  gamemode = codes "survival";
  force_gamemode = false;
  difficulty = codes "easy";
  pvp = false;
  enable_command_block = false;
  motd = [];
  max_world_size = 29999984;
  whitelist = [];
  open_to_all = false;
  ops = [];
  seed = [];
  level_type = codes "normal";
  hardcore = false;
  view_distance = none;
  simulation_distance = none;
  spawn_protection = none;
  pause_when_empty_seconds = none;
  sync_chunk_writes = none;
  allow_flight = none;
  max_players = none;
  broadcast_rcon_to_ops = none;
  broadcast_console_to_ops = none;
  use_aikar_flags = true;
  forge_version = [];
}

-- The exception classes: `MCDashError` and those below it, `RconError`, `OSError`, and any other.
pub data ErrorClass : Type 0 where
  mcdash_error not_found conflict forbidden helm_error rcon_error os_error crash : ErrorClass

pub record Error : Type 0 where
  pub kind : ErrorClass
  pub text : Text

-- `isinstance(e, MCDashError)`
abbrev pub is_mcdash : ErrorClass → Bool
is_mcdash rcon_error = false
is_mcdash os_error = false
is_mcdash crash = false
is_mcdash _ = true

-- The fields of `PodInfo` that the service reads.
pub record PodInfo : Type 0 where
  pub name : Text
  pub phase : Text
  pub ready : Bool
  pub restarts : ℕ
  pub waiting_reason : Text
  pub deleting : Bool

pub record JobInfo : Type 0 where
  pub name : Text
  pub kind : Text
  pub succeeded : ℕ
  pub failed : ℕ
  pub message : Text

-- `JobInfo.done`
abbrev pub job_done : JobInfo → Bool
job_done j = ltb 0 j.succeeded || ltb 0 j.failed

pub record JobSpec : Type 0 where
  pub name : Text
  pub world : Text
  pub kind : Text
  pub args : List Text
  pub store_read_only : Bool

-- The fields of `Config` that the modelled parts read.
pub record Config : Type 0 where
  pub port_min : ℕ
  pub port_max : ℕ
  pub rcon_port_min : ℕ
  pub rcon_port_max : ℕ
  pub default_memory : Text
  pub snapshots_dir : Text
  pub job_store_mount : Text
  pub snapshot_keep : ℕ

-- `__post_init__` raises `ValueError` on the rest.
unfoldable pub accepts_ports : Config → Bool
accepts_ports c =
    leb c.rcon_port_min c.rcon_port_max
    && not (leb c.rcon_port_min c.port_max && leb c.port_min c.rcon_port_max)
