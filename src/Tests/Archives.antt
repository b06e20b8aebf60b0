-- ===== src/Tests/Archives.antt =====
-- src/mcdash/detect.py and jobs/seed.py on an archive.
use k3s_minecraft.Prelude.{
  strip, Text, codes, true, false, some, List, [], ◌∷◌, ◌≡◌, refl, contains, list_beq, text_eq, all,
  is_space, drop_while,
}
use k3s_minecraft.Detect.{find_world}
use k3s_minecraft.Detect.Worlds.{IsFound, find_world-IsFound, find_world-root}
use k3s_minecraft.Detect.Properties.{parse_properties, write, put_all, parse_properties-write}
use k3s_minecraft.Jobs.Seed.{map_member, Disk, Member, seed}
use k3s_minecraft.Jobs.Seed.Members.{IsPlaced, map_member-vanilla}
use k3s_minecraft.Jobs.Seed.Writes.{StayBelow, seed-stays_below}

abbrev names : List Text
names = codes "old/world/level.dat" ∷ codes "world/level.dat" ∷ codes "ops.json" ∷ []

find_world-IsFound_example : IsFound names (codes "world/")
unfolding contains list_beq codes
find_world-IsFound_example =
    find_world-IsFound names [] (codes "world/") (find_world-root names refl)

find_world-root_example : find_world names ≡ some ([], codes "world/")
unfolding contains list_beq codes
find_world-root_example = find_world-root names refl

abbrev entries : List (Text × Text)
entries = (codes "level-name", codes "my world") ∷ (codes "motd", []) ∷ []

parse_properties-write_example : parse_properties (write entries) ≡ put_all [] entries
unfolding codes all is_space drop_while strip
parse_properties-write_example = parse_properties-write entries (
  record {
    plain = refl;
    unbroken = refl;
    literal = refl;
    no_blank = refl;
    trimmed = refl;
    head = refl;
  },
  (
    record {
      plain = refl;
      unbroken = refl;
      literal = refl;
      no_blank = refl;
      trimmed = refl;
      head = refl;
    },
    tt,
  ),
)

map_member-vanilla_example :
    IsPlaced (codes "a/ops.json") (codes "a/") (codes "a/world/") (codes "ops.json")
unfolding map_member
map_member-vanilla_example =
    map_member-vanilla (codes "a/ops.json") (codes "a/") (codes "a/world/") (codes "ops.json") refl

abbrev disk : Disk
disk = record { fails = λ done w. false; escapes = λ done p. false; is_file = λ done p. true }

abbrev members : List Member
members =
    record { name = codes "world/level.dat"; is_symlink = false; content = codes "nbt" }
    ∷ record { name = codes "world/../../etc/passwd"; is_symlink = false; content = [] }
    ∷ []

seed-stays_below_example :
    StayBelow (codes "data" ∷ []) (seed disk (codes "full") true (λ n. []) members).0
seed-stays_below_example =
    seed-stays_below disk (codes "data" ∷ []) (codes "full") true (λ n. []) members
