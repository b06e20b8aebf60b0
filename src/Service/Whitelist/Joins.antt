-- ===== src/Service/Whitelist/Joins.antt =====
-- src/mcdash/service.py: what the commands of `set_whitelist` do to the server's whitelist.
use k3s_minecraft.Prelude.{
  Text, Bool, true, false, ◌&&◌, ◌||◌, not, List, nat_eq, text_eq, contains, contains-select, lower,
  ◌≡◌, refl, sym, ◌∙◌, subst, arith, Bool-cases, ◌⊎◌, inl, inr,
}
use k3s_minecraft.Service.Whitelist.{whitelist_cmds}
use k3s_minecraft.Service.Whitelist.Server.{
  IsServer, is_on, joins, added, removed, lowers-find, lowers-here, joins-changes,
}

module _ (p : Text) (old players : List Text) (closing : Bool)
    (alike : (x y : Text)
      → contains old x ≡ true
      → contains players y ≡ true
      → lower x ≡ lower y
      → x ≡ y) where
  -- Who is added is given.
  added-given : is_on players p ≡ false → is_on (added old players closing) p ≡ false
  added-given h = elim (Bool-cases (is_on (added old players closing) p)) [
    | inr none' ↦ none'
    | inl some' ↦
        let (x, at, e) = lowers-find (added old players closing) (lower p) some' in
        let c = contains-select (λ x. closing || not (contains old x)) players x in
        let k = lowers-here players x (lower p) (ground arith) e in absurd (cc (h, k))
  ]

  given-added :
      is_on players p ≡ true
      → (closing || not (is_on old p)) ≡ true
      → is_on (added old players closing) p ≡ true
  given-added h k =
      let (x, at, e) = lowers-find players (lower p) h in
      let c = contains-select (λ x. closing || not (contains old x)) players x in
      elim (Bool-cases (contains old x)) [
        | inl was ↦
            let o = lowers-here old x (lower p) was e in
            lowers-here (added old players closing) x (lower p) (ground arith) e
        | inr new' ↦ lowers-here (added old players closing) x (lower p) (ground arith) e
      ]

  -- Who is removed is not given.
  given-removed : is_on players p ≡ true → is_on (removed old players) p ≡ false
  given-removed h = elim (Bool-cases (is_on (removed old players) p)) [
    | inr none' ↦ none'
    | inl some' ↦
        let (x, at, e) = lowers-find (removed old players) (lower p) some' in
        let (y, at', e') = lowers-find players (lower p) h in
        let c = contains-select (λ x. not (contains players x)) old x in
        let in_old : contains old x ≡ true = ground arith in
        let not_given : contains players x ≡ false = ground arith in
        let i = alike x y in_old at' (e ∙ sym e') in
        absurd (cc (subst (λ z. contains players z ≡ true) (sym i) at', not_given))
  ]

  left-removed : is_on players p ≡ false → is_on old p ≡ true → is_on (removed old players) p ≡ true
  left-removed h k =
      let (x, at, e) = lowers-find old (lower p) k in
      let c = contains-select (λ x. not (contains players x)) old x in
      elim (Bool-cases (contains players x)) [
        | inl given ↦ absurd (cc (h, lowers-here players x (lower p) given e))
        | inr gone ↦ lowers-here (removed old players) x (lower p) (ground arith) e
      ]

  whitelist_after :
      (was : Bool)
      → (closing ≡ false → was ≡ is_on old p)
      → (closing ≡ true → (is_on old p || is_on players p) ≡ true)
      → (not (is_on (removed old players) p) && (is_on (added old players closing) p || was))
        ≡ is_on players p
  whitelist_after was h k = elim (Bool-cases (is_on players p)) [
    | inl given ↦ rw (given, given-removed given) (present given (Bool-cases closing))
    | inr left ↦ rw (left, added-given left) (absent left (Bool-cases (is_on old p)))
  ]
    where
      present :
          is_on players p ≡ true
          → (closing ≡ true) ⊎ (closing ≡ false)
          → (is_on (added old players closing) p || was) ≡ true
      present given (inl c) = let a = given-added given (ground arith) in ground arith
      present given (inr c) = elim (Bool-cases (is_on old p)) [
        | inl o ↦ let w = h c in ground arith
        | inr o ↦ let a = given-added given (ground arith) in ground arith
      ]

      absent :
          is_on players p ≡ false
          → (is_on old p ≡ true) ⊎ (is_on old p ≡ false)
          → (not (is_on (removed old players) p) && was) ≡ false
      absent left (inl o) = rw (left-removed left o) refl
      absent left (inr o) = elim (Bool-cases closing) [
        | inl c ↦ let w = k c in ground arith
        | inr c ↦ let w = h c in ground arith
      ]

pub joins-whitelist_cmds :
    (server : Text → Bool → Text → Bool) (p : Text) (was : Bool) (old players : List Text)
    (was_open open_to_all : Bool) (old_ops new_ops : List Text)
    → IsServer server
    → ((x y : Text) → contains old x ≡ true → contains players y ≡ true → lower x ≡ lower y → x ≡ y)
    → ((was_open && not open_to_all) ≡ false → was ≡ is_on old p)
    → ((was_open && not open_to_all) ≡ true → (is_on old p || is_on players p) ≡ true)
    → joins server p was (whitelist_cmds old players was_open open_to_all old_ops new_ops)
      ≡ is_on players p
joins-whitelist_cmds server p was old players was_open open_to_all old_ops new_ops is alike h k =
    joins-changes server is p was old players was_open open_to_all old_ops new_ops
    ∙ whitelist_after p old players (was_open && not open_to_all) alike was h k

-- A player of the record who is given in another case only is taken off the server's whitelist.
pub joins-recased :
    (server : Text → Bool → Text → Bool) (p q : Text) (was : Bool) (old players : List Text)
    (was_open open_to_all : Bool) (old_ops new_ops : List Text)
    → IsServer server
    → contains players p ≡ true
    → contains players q ≡ false
    → contains old q ≡ true
    → lower q ≡ lower p
    → (joins server p was (whitelist_cmds old players was_open open_to_all old_ops new_ops) ≡ false)
      × (is_on players p ≡ true)
joins-recased server p q was old players was_open open_to_all old_ops new_ops is given gone had e =
    let c = contains-select (λ x. not (contains players x)) old q in
    let off : is_on (removed old players) p ≡ true =
      lowers-here (removed old players) q (lower p) (ground arith) e in
    (
      joins-changes server is p was old players was_open open_to_all old_ops new_ops ∙ rw off refl,
      lowers-here players p (lower p) given refl,
    )
