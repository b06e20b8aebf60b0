-- ===== src/Helm/Features.antt =====
-- src/mcdash/helmops.py and models.py: what of the settings a Minecraft version knows.
use k3s_minecraft.Prelude.{
  Text, codes, ℕ, Bool, true, false, not, Option, none, some, List, [], ◌∷◌, Dict, get, text_eq,
  ◌==◌, if◌then◌else◌, lower, strip,
}
use k3s_minecraft.Models.{WorldSettings}
use k3s_minecraft.Helm.{Version, version_tuple, version_lt}

-- `GAMEMODE_ALIASES`
abbrev pub gamemode_aliases : Dict Text Text
gamemode_aliases =
    (codes "0", codes "survival")
    ∷ (codes "s", codes "survival")
    ∷ (codes "1", codes "creative")
    ∷ (codes "c", codes "creative")
    ∷ (codes "2", codes "adventure")
    ∷ (codes "a", codes "adventure")
    ∷ (codes "3", codes "spectator")
    ∷ (codes "sp", codes "spectator")
    ∷ []

-- `d.get(k, k)`
abbrev or_self : Text → Option Text → Text
or_self k none = k
or_self k (some v) = v

unfoldable pub normalize_gamemode : Text → Text
unfolding get lower strip
normalize_gamemode gamemode =
    let gm = lower (strip gamemode) in or_self gm (get gamemode_aliases gm)

abbrev version : ℕ → ℕ → ℕ → Version
version a b c = record { major = a; minor = b; patch = c }

-- Whether a version is known, and older than this one.
abbrev older : Version → Option Version → Bool
older need none = false
older need (some t) = version_lt t need

abbrev level_type_modern : Dict Text Text
level_type_modern =
    (codes "flat", codes "minecraft:flat")
    ∷ (codes "amplified", codes "minecraft:amplified")
    ∷ (codes "large_biomes", codes "minecraft:large_biomes")
    ∷ []

abbrev level_type_legacy : Dict Text Text
level_type_legacy =
    (codes "flat", codes "FLAT")
    ∷ (codes "amplified", codes "AMPLIFIED")
    ∷ (codes "large_biomes", codes "LARGEBIOMES")
    ∷ []

unfoldable pub level_type_for : Text → Text → Option Text
unfolding version_tuple version_lt get
level_type_for level_type v =
    get (if older (version 1 19 0) (version_tuple v) then level_type_legacy else level_type_modern)
      level_type

unfoldable pub startup_rcon_commands : WorldSettings → List Text
unfolding normalize_gamemode version_tuple version_lt codes
startup_rcon_commands s =
    if not (normalize_gamemode s.gamemode == codes "adventure")
    then []
    else if older (version 1 14 0) (version_tuple s.version)
    then []
    else codes "forceload add ~ ~" ∷ []

-- `PROPERTY_MIN_VERSION`
abbrev property_min_version : Dict Text Version
property_min_version =
    (codes "sync_chunk_writes", version 1 16 0)
    ∷ (codes "simulation_distance", version 1 18 0)
    ∷ (codes "pause_when_empty_seconds", version 1 21 2)
    ∷ []

abbrev is_met : Option Version → Option Version → Bool
is_met none t = true
is_met (some need) t = not (older need t)

unfoldable pub property_supported : Text → Text → Bool
unfolding version_tuple version_lt get
property_supported field v = is_met (get property_min_version field) (version_tuple v)
