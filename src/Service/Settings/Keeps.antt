-- ===== src/Service/Settings/Keeps.antt =====
-- src/mcdash/service.py: the checks of settings and names change nothing.
use k3s_minecraft.Prelude.{
  Text, codes, ℕ, ◌||◌, Option, none, some, List, [], ◌∷◌, ◌++◌, text_eq, ◌==◌, if◌then◌else◌,
}
use k3s_minecraft.Models.{WorldSettings, ServerType, vanilla, forge, Config}
use k3s_minecraft.Service.Exec.{State, pure}
use k3s_minecraft.Service.Exec.Keeps.{Keeps, keeps_rules, Keeps-if, Keeps-raise}
use k3s_minecraft.Service.Records.{check_size}
use k3s_minecraft.Service.Settings.{
  is_player_name, check_names, refuse_missing, check_range, check_forge_version, check_settings,
  check_players, check_properties, check_name, is_forge_version, bad,
}

module _ {P : State → Type 0} where
  check_names-Keeps : (ns : List Text) → Keeps P (check_names ns)
  unfolding check_names
  check_names-Keeps [] = search keeps_rules
  check_names-Keeps (n ∷ ns) =
      Keeps-if (is_player_name n) (check_names ns) _ (check_names-Keeps ns) (Keeps-raise _)

  refuse_missing-Keeps : (ns : List Text) → Keeps P (refuse_missing ns)
  unfolding refuse_missing
  refuse_missing-Keeps [] = search keeps_rules
  refuse_missing-Keeps (n ∷ ns) = search keeps_rules

  check_range-Keeps : (t : Text) (lo hi : ℕ) (v : Option ℕ) → Keeps P (check_range t lo hi v)
  unfolding check_range
  check_range-Keeps t lo hi none = search keeps_rules
  check_range-Keeps t lo hi (some v) = search keeps_rules

  check_forge_version-Keeps : (s : WorldSettings) → Keeps P (check_forge_version s)
  unfolding check_forge_version
  check_forge_version-Keeps s = go s.server_type
    where
      go :
          (t : ServerType)
          → Keeps P (elim t [
            | vanilla ↦ pure tt
            | forge ↦
                if s.forge_version == [] || is_forge_version s.forge_version
                then pure tt
                else bad (
                    codes "'"
                    ++ s.forge_version
                    ++ codes "' is not a Forge version (e.g. 36.2.34; blank = detected)")
          ])
      go vanilla = search keeps_rules
      go forge = search keeps_rules

  pub check_settings-Keeps : (c : Config) (s : WorldSettings) → Keeps P (check_settings c s)
  unfolding check_settings check_players check_properties check_size
  check_settings-Keeps c s =
      search
        (
          keeps_rules, check_names-Keeps, refuse_missing-Keeps, check_range-Keeps,
          check_forge_version-Keeps,
        )
        depth 20

  pub check_name-Keeps : (t : Text) → Keeps P (check_name t)
  unfolding check_name
  check_name-Keeps t = search keeps_rules
