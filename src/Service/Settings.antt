-- ===== src/Service/Settings.antt =====
-- src/mcdash/service.py: what is checked before a world's settings are stored.
pub mod Keeps
use k3s_minecraft.Prelude.{
  Text, codes, ℕ, Bool, false, ◌&&◌, ◌||◌, not, Option, none, some, List, [], ◌∷◌, ◌++◌, text_eq,
  ◌==◌, if◌then◌else◌, all, select, contains, eqb, leb, ltb, lower, length, split, join, is_alpha,
  is_digit, str,
}
use k3s_minecraft.Models.{WorldSettings, vanilla, forge, Config, mcdash_error}
use k3s_minecraft.Helm.{is_number}
use k3s_minecraft.Naming.{is_valid_world_name}
use k3s_minecraft.Service.Exec.{M, pure, raise, ◌>>=◌, ◌>>◌, when}
use k3s_minecraft.Service.Records.{check_size}

abbrev pub bad : Text → M (Unit {0})
bad t = raise (record { kind = mcdash_error; text = t })

-- `c.isalnum() or c == "_"`
unfoldable pub is_player_char : ℕ → Bool
unfolding is_alpha is_digit
is_player_char c = is_alpha c || is_digit c || eqb c b'_'

unfoldable pub is_player_name : Text → Bool
unfolding is_player_char all
is_player_name [] = false
is_player_name (c ∷ s) = leb (length (c ∷ s)) 16 && all is_player_char (c ∷ s)

unfoldable pub lowers : List Text → List Text
unfolding lower
lowers [] = []
lowers (n ∷ ns) = lower n ∷ lowers ns

unfoldable pub check_names : List Text → M (Unit {0})
unfolding is_player_name pure raise codes
check_names [] = pure tt
check_names (n ∷ ns) =
    let rest = check_names ns in
    if is_player_name n then rest else bad (codes "bad player name '" ++ n ++ codes "'")

-- The admins that the whitelist lacks, ignoring case.
unfoldable pub missing_ops : List Text → List Text → List Text
unfolding select contains lowers lower
missing_ops whitelist = select (λ n. not (contains (lowers whitelist) (lower n)))

unfoldable pub refuse_missing : List Text → M (Unit {0})
refuse_missing [] = pure tt
refuse_missing (n ∷ ns) =
    bad (codes "admins must be on the whitelist: " ++ join (codes ", ") (n ∷ ns))

unfoldable pub check_players : WorldSettings → M (Unit {0})
unfolding check_names missing_ops refuse_missing ◌>>=◌ when
check_players s = do
  check_names (s.whitelist ++ s.ops)
  when (not s.open_to_all) (refuse_missing (missing_ops s.whitelist s.ops))

-- One round of the first loop of `check_properties`; its second loop is about types only.
unfoldable pub check_range : Text → ℕ → ℕ → Option ℕ → M (Unit {0})
unfolding pure raise codes
check_range name lo hi none = pure tt
check_range name lo hi (some v) =
    if leb lo v && leb v hi
    then pure tt
    else bad (name ++ codes " must be a whole number from " ++ str lo ++ codes " to " ++ str hi)

unfoldable pub check_properties : WorldSettings → M (Unit {0})
unfolding check_range ◌>>=◌
check_properties s = do
  check_range (codes "view distance") 2 32 s.view_distance
  check_range (codes "simulation distance") 5 32 s.simulation_distance
  check_range (codes "spawn protection") 0 100000 s.spawn_protection
  check_range (codes "pause when empty seconds") 0 86400 s.pause_when_empty_seconds
  check_range (codes "max players") 1 10000 s.max_players

-- `\d+(\.\d+){1,3}`
unfoldable pub is_forge_version : Text → Bool
unfolding split all is_number
is_forge_version s =
    let parts = split b'.' s in leb 2 (length parts) && leb (length parts) 4 && all is_number parts

unfoldable pub check_forge_version : WorldSettings → M (Unit {0})
unfolding is_forge_version pure raise codes
check_forge_version s = elim s.server_type [
  | vanilla ↦ pure tt
  | forge ↦
      if s.forge_version == [] || is_forge_version s.forge_version
      then pure tt
      else bad (
          codes "'"
          ++ s.forge_version
          ++ codes "' is not a Forge version (e.g. 36.2.34; blank = detected)")
]

unfoldable pub forge_override : WorldSettings → Text → Text
forge_override s detected = elim s.server_type [
  | vanilla ↦ []
  | forge ↦ if s.forge_version == detected then [] else s.forge_version
]

-- `LEVEL_TYPES`
abbrev pub level_types : List Text
level_types = codes "normal" ∷ codes "flat" ∷ codes "amplified" ∷ codes "large_biomes" ∷ []

abbrev pub max_seed_len : ℕ
max_seed_len = 64

-- `_check_settings`
unfoldable pub check_settings : Config → WorldSettings → M (Unit {0})
unfolding check_size check_players check_properties check_forge_version contains all ◌>>=◌ when
check_settings cfg s = do
  check_size (if s.memory == [] then cfg.default_memory else s.memory)
  check_players s
  check_properties s
  check_forge_version s
  when (not (contains level_types s.level_type)) (
      bad (
        codes "unknown world type '"
        ++ s.level_type
        ++ codes "' (one of "
        ++ join (codes ", ") level_types
        ++ codes ")"))
  when (ltb max_seed_len (length s.seed) || not (all (λ c. leb 32 c && leb c 126) s.seed))
      (bad (codes "seed must be at most 64 printable characters"))

-- `_check_name`
unfoldable pub check_name : Text → M (Unit {0})
unfolding is_valid_world_name when
check_name name = when (not (is_valid_world_name name)) (
    bad (
      codes "'"
      ++ name
      ++ codes
          "' is not a valid world name (lowercase letters, digits, '-', start with a letter, max 40 chars)"))
