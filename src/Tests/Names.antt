-- ===== src/Tests/Names.antt =====
-- src/mcdash/naming.py at concrete names.
use Prim.Native.Nat.{◌<◌, ◌≤◌}
use k3s_minecraft.Prelude.{
  Text, codes, ℕ, ◌+◌, true, false, some, List, [], ◌∷◌, ◌++◌, ◌≡◌, refl, arith, length, contains,
  text_eq, ◌⊎◌,
}
use k3s_minecraft.Naming.{candidate, unique_name, sanitize_world_name, is_valid_world_name}
use k3s_minecraft.Naming.Labels.{sanitize_world_name-valid, newline-valid}
use k3s_minecraft.Naming.Unique.{unique_name-eq_some, unique_name-valid}

abbrev worlds : List Text
worlds = codes "my-world" ∷ codes "my-world-2" ∷ []

unique_name-valid_example :
    (r : Text) × (unique_name (codes " My World!") worlds ≡ some r)
    × (contains worlds r ≡ false)
    × (is_valid_world_name r ≡ true)
unique_name-valid_example = unique_name-valid (codes " My World!") worlds (omega arith)

unique_name-eq_some_example :
    (contains worlds (codes "my-world-3") ≡ false)
    × ((codes "my-world-3" ≡ sanitize_world_name (codes " My World!"))
        ⊎ ((m : ℕ) × (codes "my-world-3" ≡ candidate (sanitize_world_name (codes " My World!")) m)
            × (m ≤ length worlds + 2)
            × (contains worlds (sanitize_world_name (codes " My World!")) ≡ true)
            × ((k : ℕ)
                → 2 ≤ k
                → k < m
                → contains worlds (candidate (sanitize_world_name (codes " My World!")) k) ≡ true)))
unfolding unique_name
unique_name-eq_some_example =
    unique_name-eq_some (codes " My World!") worlds (codes "my-world-3") refl

sanitize_world_name-valid_example :
    is_valid_world_name (sanitize_world_name (codes "_42 Blocks_")) ≡ true
sanitize_world_name-valid_example = sanitize_world_name-valid (codes "_42 Blocks_")

newline-valid_example : is_valid_world_name (codes "abc" ++ b'\n' ∷ []) ≡ true
unfolding is_valid_world_name codes
newline-valid_example = newline-valid (codes "abc") refl (omega arith)
