-- ===== src/Tests/Snapshots.antt =====
-- src/mcdash/jobs: a snapshot of a small volume, and its restoration.
use k3s_minecraft.Prelude.{codes, true, false, none, some, List, [], ◌∷◌, any, list_beq, ◌≡◌, refl}
use k3s_minecraft.Jobs.Seed.{marker, wiped, make_dir, write_file, Disk, wrote, seed, is_drive}
use k3s_minecraft.Jobs.Snapshot.{Entries, nil, entry, file, dir, Stored, members_of, snapshot}
use k3s_minecraft.Jobs.Snapshot.Names.{proper, is_plain}
use k3s_minecraft.Jobs.Snapshot.Plans.{IsCalm, writes_file}
use k3s_minecraft.Jobs.Snapshot.RoundTrip.{seed-snapshot}

abbrev disk : Disk
disk = record {
  fails = λ done w. false;
  escapes = λ done p. false;
  is_file = λ done p. any (writes_file p) done;
}

disk-IsCalm : IsCalm disk
unfolding any
disk-IsCalm = record {
  fails_eq = λ done w. refl;
  escapes_eq = λ done p. refl;
  is_file_eq = λ done p h. h;
}

abbrev volume : Entries
volume = entry (codes "world") (dir (entry (codes "level.dat") (file (codes "nbt")) nil)) (
    entry (codes "logs") (dir (entry (codes "latest.log") (file []) nil))
      (entry (codes "ops.json") (file (codes "[]")) nil))

abbrev stored : List Stored
stored =
    record { path = codes "ops.json" ∷ []; content = some (codes "[]") }
    ∷ record { path = codes "world" ∷ []; content = none }
    ∷ record { path = codes "world" ∷ codes "level.dat" ∷ []; content = some (codes "nbt") }
    ∷ []

seed-snapshot_example : seed disk (codes "full") true (λ n. n ∷ []) (members_of stored) ≡ (
  wiped
      ∷ make_dir []
      ∷ write_file (codes "ops.json" ∷ []) (codes "[]")
      ∷ make_dir []
      ∷ make_dir (codes "world" ∷ [])
      ∷ make_dir (codes "world" ∷ [])
      ∷ write_file (codes "world" ∷ codes "level.dat" ∷ []) (codes "nbt")
      ∷ write_file (marker ∷ []) (2 ∷ [])
      ∷ [],
  wrote 2,
)
unfolding proper is_plain list_beq is_drive snapshot
seed-snapshot_example = seed-snapshot disk volume stored (λ n. n ∷ []) disk-IsCalm refl refl
