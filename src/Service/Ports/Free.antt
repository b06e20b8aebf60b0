-- ===== src/Service/Ports/Free.antt =====
-- src/mcdash/service.py: the free port that an allocation finds.
use k3s_minecraft.Prelude.{
  ℕ, zero, suc, ◌+◌, ◌-◌, ◌≤◌, ◌<◌, true, false, none, some, List, nat_eq, contains, ◌≡◌, arith,
  eqb, Bool-cases, inl, inr,
}
use k3s_minecraft.Service.Ports.{free_port, free_in}

free_port-eq_some :
    (used : List ℕ) (n p q : ℕ)
    → free_port used n p ≡ some q
    → (p ≤ q)
      × (q < p + n)
      × (contains used q ≡ false)
      × ((k : ℕ) → p ≤ k → k < q → contains used k ≡ true)
unfolding free_port
free_port-eq_some used zero p q h = cc
free_port-eq_some used (suc n) p q h = elim (Bool-cases (contains used p)) [
  | inr free ↦
      let e : p ≡ q = ground arith in
      (omega arith, omega arith, ground arith, λ k l u. absurd (omega arith))
  | inl taken ↦
      let (a, b, c, d) = free_port-eq_some used n (p + 1) q (ground arith) in
      (
        omega arith,
        omega arith,
        c,
        λ k l u. elim (Bool-cases (eqb k p)) [
          | inl same ↦ ground arith
          | inr other ↦ d k (ground arith) u
        ],
      )
]

free_port-eq_none :
    (used : List ℕ) (n p : ℕ)
    → free_port used n p ≡ none
    → (k : ℕ) → p ≤ k
    → k < p + n
    → contains used k ≡ true
unfolding free_port
free_port-eq_none used zero p h k l u = absurd (omega arith)
free_port-eq_none used (suc n) p h k l u = elim (Bool-cases (contains used p)) [
  | inr free ↦ ground arith
  | inl taken ↦ elim (Bool-cases (eqb k p)) [
    | inl same ↦ ground arith
    | inr other ↦ free_port-eq_none used n (p + 1) (ground arith) k (ground arith) (omega arith)
  ]
]

-- The port found is the least one of the range that is not used.
pub free_in-eq_some :
    (used : List ℕ) (lo hi q : ℕ)
    → free_in used lo hi ≡ some q
    → (lo ≤ q)
      × (q ≤ hi)
      × (contains used q ≡ false)
      × ((k : ℕ) → lo ≤ k → k < q → contains used k ≡ true)
unfolding free_in
free_in-eq_some used lo hi q h =
    let (a, b, c, d) = free_port-eq_some used (hi + 1 - lo) lo q h in (a, omega arith, c, d)

-- None is found only where every port of the range is used.
pub free_in-eq_none :
    (used : List ℕ) (lo hi : ℕ)
    → free_in used lo hi ≡ none
    → (k : ℕ) → lo ≤ k
    → k ≤ hi
    → contains used k ≡ true
unfolding free_in
free_in-eq_none used lo hi h k l u = free_port-eq_none used (hi + 1 - lo) lo h k l (omega arith)
