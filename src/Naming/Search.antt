-- ===== src/Naming/Search.antt =====
-- src/mcdash/naming.py: the search for a free name, for any names that are all different.
use Prim.Native.Nat.{◌<◌, ◌≤◌}
use k3s_minecraft.Prelude.{
  Text, ℕ, zero, suc, ◌+◌, true, false, some, List, [], ◌∷◌, ◌≡◌, refl, arith, if◌then◌else◌, eqb,
  length, contains, text_eq, nat_eq, select, length-select, not, ◌==◌, Bool-cases, inl, inr,
}
use k3s_minecraft.Naming.{first_free}

-- The names taken without one of them.
abbrev without : Text → List Text → List Text
without a = select (λ b. not (a == b))

contains-without :
    (a b : Text) (taken : List Text)
    → contains (without a taken) b ≡ (if a == b then false else contains taken b)
unfolding contains select
contains-without a b [] = ground arith
contains-without a b (t ∷ taken) = ground (
  arith,
  contains-without a b taken,
  text_eq.same_iff a b,
  text_eq.same_iff a t,
  text_eq.same_iff b t,
)

length-without :
    (a : Text) (taken : List Text)
    → contains taken a ≡ true
    → length (without a taken) < length taken
unfolding contains select
length-without a [] h = cc
length-without a (t ∷ taken) h =
    ground (arith, length-without a taken, length-select (λ b. not (a == b)) taken)

module _ (name : ℕ → Text) (distinct : (n m : ℕ) → name n ≡ name m → n ≡ m) where
  -- The search sees no more of the names taken than the names that it tries.
  first_free-congr :
      (f n : ℕ) (taken others : List Text)
      → ((m : ℕ) → n ≤ m → contains taken (name m) ≡ contains others (name m))
      → first_free name taken f n ≡ first_free name others f n
  unfolding first_free
  first_free-congr zero n taken others h = refl
  first_free-congr (suc f) n taken others h =
      rw (h n (omega arith), first_free-congr f (n + 1) taken others (λ m l. h m (omega arith)))

  -- More rounds than names taken are enough: no name is tried twice.
  pub first_free-total :
      (f n : ℕ) (taken : List Text)
      → length taken < f
      → (r : Text) × (first_free name taken f n ≡ some r)
  unfolding first_free
  first_free-total zero n taken h = elim h [ ]
  first_free-total (suc f) n taken h = elim (Bool-cases (contains taken (name n))) [
    | inr free ↦ (name n, rw free)
    | inl used ↦
        let (r, found) =
          first_free-total f (n + 1) (without (name n) taken)
            (omega (arith, length-without (name n) taken used)) in
        (
          r,
          rw
              (
                used,
                first_free-congr f (n + 1) taken (without (name n) taken) (λ m l. ground (
                  arith,
                  contains-without (name n) (name m) taken,
                  text_eq.same_iff (name n) (name m),
                  distinct n m,
                )),
              )
              found,
        )
  ]

-- What the search returns is the first name from `n` on that is not taken.
pub first_free-eq_some :
    (name : ℕ → Text) (taken : List Text) (f n : ℕ) (r : Text)
    → first_free name taken f n ≡ some r
    → (m : ℕ) × (r ≡ name m)
      × (n ≤ m)
      × (m < n + f)
      × (contains taken r ≡ false)
      × ((k : ℕ) → n ≤ k → k < m → contains taken (name k) ≡ true)
unfolding first_free
first_free-eq_some name taken zero n r h = cc
first_free-eq_some name taken (suc f) n r h = elim (Bool-cases (contains taken (name n))) [
  | inr free ↦
      (n, ground arith, omega arith, omega arith, ground arith, λ k l u. absurd (omega arith))
  | inl used ↦
      let (m, e, l, u, out, before) = first_free-eq_some name taken f (n + 1) r (ground arith) in
      (
        m,
        e,
        omega arith,
        omega arith,
        out,
        λ k l' u'. elim (Bool-cases (eqb k n)) [
          | inl same ↦ ground arith
          | inr other ↦ before k (ground arith) u'
        ],
      )
]
