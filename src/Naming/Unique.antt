-- ===== src/Naming/Unique.antt =====
-- src/mcdash/naming.py: `unique_name` ends, and its result is valid and not taken.
use Prim.Native.Nat.{◌<◌, ◌≤◌, ◌^◌}
use k3s_minecraft.Prelude.{
  Text, ℕ, suc, ◌+◌, true, false, some, List, ◌≡◌, sym, arith, length, contains, text_eq, nat_eq,
  Bool-cases, inl, inr, ◌⊎◌,
}
use k3s_minecraft.Naming.{candidate, unique_name, sanitize_world_name, is_valid_world_name}
use k3s_minecraft.Naming.Labels.{sanitize_world_name-is_label, sanitize_world_name-valid}
use k3s_minecraft.Naming.Search.{first_free-total, first_free-eq_some}
use k3s_minecraft.Naming.Candidates.{candidate_inj, candidate-valid}

-- Whatever names are taken, the loop ends within its fuel.
unique_name-total :
    (base : Text) (taken : List Text) → (r : Text) × (unique_name base taken ≡ some r)
unfolding unique_name
unique_name-total base taken = elim (Bool-cases (contains taken (sanitize_world_name base))) [
  | inr free ↦ (sanitize_world_name base, rw free)
  | inl used ↦
      let (r, found) =
        first_free-total (candidate (sanitize_world_name base))
          (candidate_inj (sanitize_world_name base)) (suc (length taken)) 2 taken (omega arith) in
      (r, rw used found)
]

-- A name that `unique_name` returns is not taken, and is the sanitised base or, only if that is
-- taken, its candidate of the least number from 2 on that is free; the number is at most 2 more
-- than the count of names taken.
pub unique_name-eq_some :
    (base : Text) (taken : List Text) (r : Text)
    → unique_name base taken ≡ some r
    → (contains taken r ≡ false)
      × ((r ≡ sanitize_world_name base)
          ⊎ ((m : ℕ) × (r ≡ candidate (sanitize_world_name base) m)
              × (m ≤ length taken + 2)
              × (contains taken (sanitize_world_name base) ≡ true)
              × ((k : ℕ)
                  → 2 ≤ k
                  → k < m
                  → contains taken (candidate (sanitize_world_name base) k) ≡ true)))
unfolding unique_name
unique_name-eq_some base taken r h = elim (Bool-cases (contains taken (sanitize_world_name base))) [
  | inr free ↦ let e : sanitize_world_name base ≡ r = ground arith in (rw (← e) free, inl (sym e))
  | inl used ↦
      let (m, e, l, u, out, before) =
        first_free-eq_some (candidate (sanitize_world_name base)) taken (suc (length taken)) 2 r
          (ground arith) in
      (out, inr (m, e, omega arith, used, before))
]

-- While fewer than 10^37 names are taken, `unique_name` returns a name, which is not taken and
-- which `is_valid_world_name` takes.
pub unique_name-valid :
    (base : Text) (taken : List Text)
    → length taken < 10 ^ 37
    → (r : Text) × (unique_name base taken ≡ some r)
      × (contains taken r ≡ false)
      × (is_valid_world_name r ≡ true)
unique_name-valid base taken few =
    let (r, h) = unique_name-total base taken in
    let (out, which) = unique_name-eq_some base taken r h in
    (
      r,
      h,
      out,
      elim which [
        | inl e ↦ rw e (sanitize_world_name-valid base)
        | inr (m, e, le, _, _) ↦ rw e (
            candidate-valid (sanitize_world_name base) m (omega arith)
              (sanitize_world_name-is_label base))
      ],
    )
