-- ===== src/Store/Audit.antt =====
-- src/mcdash/store.py: the audit log that is read after an entry.
use k3s_minecraft.Prelude.{
  Text, ℕ, zero, suc, ◌-◌, ◌≤◌, Option, none, some, List, [], ◌∷◌, ◌++◌, length, drop,
  length-append, length-drop, ◌≡◌, refl, sym, ap, ◌∙◌, arith, Bool-cases, inl, inr,
}
use k3s_minecraft.Store.{
  Files, ok, Volume, AuditRecord, AuditLog, protected, read_json, audit, put_audit, known,
  audit_path, parsed, last_lines, read_audit,
}

drop-append :
    {A : Type 0} (n : ℕ) (xs ys : List A) → n ≤ length xs → drop n (xs ++ ys) ≡ drop n xs ++ ys
drop-append zero xs ys h = refl
drop-append (suc n) [] ys h = absurd (omega arith)
drop-append (suc n) (x ∷ xs) ys h = drop-append n xs ys (omega arith)

parsed-append : (xs ys : AuditLog) → parsed (xs ++ ys) ≡ parsed xs ++ parsed ys
unfolding parsed
parsed-append [] ys = refl
parsed-append (none ∷ xs) ys = parsed-append xs ys
parsed-append (some r ∷ xs) ys = ap (λ t. r ∷ t) (parsed-append xs ys)

length-parsed : (xs : AuditLog) → length (parsed xs) ≤ length xs
unfolding parsed
length-parsed [] = omega arith
length-parsed (none ∷ xs) = omega (arith, length-parsed xs)
length-parsed (some r ∷ xs) = omega (arith, length-parsed xs)

audit_file-audit :
    {D : Type 0} (v : Volume D) (ts actor action target : Text) (s s' : Files D)
    → audit v ts actor action target s ≡ (ok tt, s')
    → put_audit (record { ts = ts; actor = known actor; action = action; target = target }) s ≡ s'
unfolding audit
audit_file-audit v ts actor action target s s' h = elim (Bool-cases (protected v (audit_path v))) [
  | inl kept ↦ absurd (ground arith)
  | inr open' ↦ elim (Bool-cases (v.fails s (audit_path v))) [
    | inl failed ↦ absurd (ground arith)
    | inr fine ↦ ground arith
  ]
]

last_lines-snoc :
    (n : ℕ) (log : AuditLog) (line : Option AuditRecord)
    → last_lines (suc n) (log ++ line ∷ []) ≡ drop (length log - n) log ++ line ∷ []
unfolding last_lines
last_lines-snoc n log line =
    let e : length (log ++ line ∷ []) - suc n ≡ length log - n =
      omega (arith, length-append log (line ∷ [])) in
    rw e (drop-append (length log - n) log (line ∷ []) (omega arith))

-- After `audit` returned, a reader of the last `n + 1` entries finds the new one behind those that
-- it would have found of the last `n` lines before, and no more than it asked for.
pub read_audit-audit :
    {D : Type 0} (v : Volume D) (ts actor action target : Text) (s s' : Files D) (n : ℕ)
    → audit v ts actor action target s ≡ (ok tt, s')
    → (read_audit (suc n) s'
        ≡ parsed (drop (length (read_json s.audit_file []) - n) (read_json s.audit_file []))
          ++ record { ts = ts; actor = known actor; action = action; target = target } ∷ [])
      × (length (read_audit (suc n) s') ≤ suc n)
unfolding read_audit
read_audit-audit v ts actor action target s s' n h =
    let rec : AuditRecord = record {
      ts = ts;
      actor = known actor;
      action = action;
      target = target;
    } in
    let log = read_json s.audit_file [] in
    let old = drop (length log - n) log in
    let e : read_json s'.audit_file [] ≡ log ++ some rec ∷ [] =
      ap (λ (t : Files _). read_json t.audit_file [])
        (sym (audit_file-audit v ts actor action target s s' h)) in
    let lines = ap (last_lines (suc n)) e ∙ last_lines-snoc n log (some rec) in
    let f = ap parsed lines ∙ parsed-append old (some rec ∷ []) in
    (
      f,
      omega (
        arith,
        ap length lines,
        length-parsed (last_lines (suc n) (read_json s'.audit_file [])),
        length-append old (some rec ∷ []),
        length-drop (length log - n) log,
      ),
    )
