-- ===== src/Tests/Dates.antt =====
-- src/mcdash/naming.py: the names of its documentation.
use k3s_minecraft.Prelude.{
  is_digit, is_space, codes, some, none, ◌∷◌, ◌++◌, ◌≡◌, refl, list_beq, all,
}
use k3s_minecraft.Naming.Dates.{
  DateTime, is_date, parse_compact_timestamp, format_compact_timestamp,
}
use k3s_minecraft.Naming.BackupNames.{parse_backup_name}
use k3s_minecraft.Naming.Snapshots.{copy_mark, parse_backup_name-snapshot}
use k3s_minecraft.Naming.Stamps.{parse_compact_timestamp-format_compact_timestamp}

abbrev noon : DateTime
noon = record { year = 2026; month = 2; day = 28; hour = 12; minute = 5; second = 59 }

parse_compact_timestamp-format_compact_timestamp_example :
    parse_compact_timestamp (format_compact_timestamp noon) ≡ some noon
unfolding is_date
parse_compact_timestamp-format_compact_timestamp_example =
    parse_compact_timestamp-format_compact_timestamp noon refl

parse_backup_name-snapshot_example :
    parse_backup_name
      ((codes "king" ++ copy_mark (some (codes "1")))
        ++ b'/' ∷ (format_compact_timestamp noon ++ codes ".zip"))
      none
    ≡ (codes "king", some noon)
unfolding is_date codes all is_digit is_space
parse_backup_name-snapshot_example =
    parse_backup_name-snapshot (codes "king") (some (codes "1")) noon none refl (λ e. cc) (λ e. cc)
      (refl, λ e. cc) refl

parsed : parse_backup_name (codes "2021-05-15-21_56_20-king-ghidorah(1).zip") none ≡ (
  codes "king-ghidorah",
  some (record { year = 2021; month = 5; day = 15; hour = 21; minute = 56; second = 20 }),
)
unfolding parse_backup_name codes list_beq
parsed = refl

parsed_short : parse_backup_name (codes "22-01-21.21.50.00-noah-james.zip") none ≡ (
  codes "noah-james",
  some (record { year = 2022; month = 1; day = 21; hour = 21; minute = 50; second = 0 }),
)
unfolding parse_backup_name codes list_beq
parsed_short = refl

parsed_dated : parse_backup_name (codes "a/2021-05-09-world-of-animals-old1.zip") none ≡ (
  codes "world-of-animals-old1",
  some (record { year = 2021; month = 5; day = 9; hour = 0; minute = 0; second = 0 }),
)
unfolding parse_backup_name codes list_beq
parsed_dated = refl

parsed_colons : parse_backup_name (codes "2021-05-15-21:58:22-devils-deep.zip") none ≡ (
  codes "devils-deep",
  some (record { year = 2021; month = 5; day = 15; hour = 21; minute = 58; second = 22 }),
)
unfolding parse_backup_name codes list_beq
parsed_colons = refl

parsed_plain :
    parse_backup_name (codes "noah_single_player_best_2021_05/mansion-world.zip") none
    ≡ (codes "mansion-world", none)
unfolding parse_backup_name codes list_beq
parsed_plain = refl
