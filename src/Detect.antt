-- ===== src/Detect.antt =====
-- src/mcdash/detect.py: what is in a backup. The archive and the reader of level.dat are parameters.
pub mod Worlds
pub mod Properties
use k3s_minecraft.Prelude.{
  Text, codes, Bool, true, false, ◌&&◌, ◌||◌, not, Option, none, some, List, [], ◌∷◌, ◌++◌, text_eq,
  nat_eq, ◌==◌, contains, eqb, ltb, select, ends_with, has_infix, drop_end, drop_while_end, count,
  list_lt, min_of,
}

-- The two tests of `find_world` on a member's name, and the names that it leaves out.
unfoldable pub is_skipped : Text → Bool
unfolding ends_with has_infix codes
is_skipped n = ends_with n (codes "/") || has_infix n (codes "__MACOSX/")

unfoldable pub is_server : Text → Bool
unfolding ends_with codes
is_server n = n == codes "world/level.dat" || ends_with n (codes "/world/level.dat")

unfoldable pub is_save : Text → Bool
unfolding ends_with codes
is_save n = n == codes "level.dat" || ends_with n (codes "/level.dat")

-- `n[: -len("level.dat")]`
unfoldable pub dir_of : Text → Text
unfolding drop_end
dir_of n = drop_end 9 n

unfoldable pub dirs_of : List Text → List Text
unfolding dir_of
dirs_of [] = []
dirs_of (n ∷ ns) = dir_of n ∷ dirs_of ns

unfoldable pub servers : List Text → List Text
unfolding dirs_of select is_skipped is_server
servers names = dirs_of (select (λ n. not (is_skipped n) && is_server n) names)

unfoldable pub saves : List Text → List Text
unfolding dirs_of select is_skipped is_server is_save
saves names = dirs_of (select (λ n. not (is_skipped n) && not (is_server n) && is_save n) names)

-- `(s.count("/"), s)`, compared
unfoldable pub shallower : Text → Text → Bool
unfolding count list_lt
shallower a b = let m = count b'/' a in let n = count b'/' b in ltb m n || (eqb m n && list_lt a b)

-- `s.rpartition("/")[0]`
unfoldable pub before_last_slash : Text → Text
before_last_slash [] = []
before_last_slash (c ∷ s) = elim (contains s b'/') [ true ↦ c ∷ before_last_slash s | false ↦ [] ]

abbrev with_slash : Text → Text
with_slash [] = []
with_slash (c ∷ s) = (c ∷ s) ++ codes "/"

unfoldable pub find_save : List Text → Option (Text × Text)
unfolding min_of shallower before_last_slash drop_while_end codes
find_save [] = none
find_save (d ∷ ds) =
    let wd = min_of shallower d ds in
    some (with_slash (before_last_slash (drop_while_end (λ c. eqb c b'/') wd)), wd)

unfoldable pub find_in : List Text → List Text → Option (Text × Text)
unfolding min_of shallower find_save drop_end
find_in [] other = find_save other
find_in (d ∷ ds) other = let wd = min_of shallower d ds in some (drop_end 6 wd, wd)

unfoldable pub find_world : List Text → Option (Text × Text)
unfolding servers saves find_in
find_world names = find_in (servers names) (saves names)
