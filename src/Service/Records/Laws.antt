-- ===== src/Service/Records/Laws.antt =====
-- src/mcdash/service.py: what reading and healing the records keeps of one world's record.
use k3s_minecraft.Prelude.{
  Text, codes, true, false, ◌&&◌, not, Option, none, some, List, [], ◌∷◌, ◌++◌, Dict, get, put,
  get-put, text_eq, ◌==◌, if◌then◌else◌, eqb, ◌≡◌, refl, sym, ◌∙◌, ap, subst, Bool-cases, inl, inr,
}
use k3s_minecraft.Models.{not_found}
use k3s_minecraft.Service.Exec.{
  State, Spec, Op, Entry, Release, Values, Query, asked, put_configmap, Outside, pure, raise, gets,
  modify, ◌>>=◌, ◌>>◌, maybe, call, apply_event,
}
use k3s_minecraft.Service.Exec.Keeps.{Keeps, Survives, Keeps-call, keeps_rules}
use k3s_minecraft.Service.Exec.Meets.{Meets, Meets-pure, Meets-raise, Meets-of_Keeps, Meets-bind}
use k3s_minecraft.Service.Records.{
  spec_from_values, releases, collect_releases, collect_release, fetch_values, heal_entry, heal,
  records, load,
}

-- What healing makes of the record of a world with these release values.
unfoldable pub healed : Values → Option Entry → Entry
healed v none = record { spec = spec_from_values v; op = none }
healed v (some e) =
    if eqb e.spec.port 0
    then record { spec = spec_from_values v; op = e.op }
    else if eqb e.spec.rcon_port 0 && not (eqb (spec_from_values v).rcon_port 0)
    then record e { spec = record e.spec { rcon_port = (spec_from_values v).rcon_port } }
    else e

healed-lost :
    (v : Values) (x : Entry)
    → eqb x.spec.port 0 ≡ true
    → healed v (some x) ≡ record { spec = spec_from_values v; op = x.op }
unfolding healed
healed-lost v x h = rw h

healed-adopt :
    (v : Values) (x : Entry)
    → eqb x.spec.port 0 ≡ false
    → (eqb x.spec.rcon_port 0 && not (eqb (spec_from_values v).rcon_port 0)) ≡ true
    → healed v (some x)
      ≡ record x { spec = record x.spec { rcon_port = (spec_from_values v).rcon_port } }
unfolding healed
healed-adopt v x h k = rw (h, k)

-- A property of the record of `w` that healing keeps.
module _ (o : Outside) (w : Text) (Φ : Option Entry → Type 0)
    (heals : (v : Values) (x : Option Entry) → Φ x → Φ (some (healed v x))) where
  abbrev pub Here : Dict Text Entry → Type 0
  Here d = Φ (get d w)

  abbrev pub Stored : State → Type 0
  Stored s = Here s.records

  pub Here-put :
      (d : Dict Text Entry) (k : Text) (e : Entry)
      → (w ≡ k → Φ (some e))
      → Here d
      → Here (put d k e)
  Here-put d k e new h = rw get-put (elim (Bool-cases (w == k)) [
    | inl same ↦ rw same (new ((text_eq.same_iff w k).0 same))
    | inr other ↦ rw other h
  ])

  pub put-Stored :
      (k : Text) (e : Entry) → (w ≡ k → Φ (some e)) → Survives Stored (put_configmap k e)
  unfolding apply_event
  put-Stored k e new = record { raised = λ s h. h; done = λ s h. Here-put s.records k e new h }

  pub asked-Stored : (q : Query) → Survives Stored (asked q)
  unfolding apply_event
  asked-Stored q = record { raised = λ s h. h; done = λ s h. h }

  cache-Stored :
      (f : State → Dict Text (Text × Values)) (s : State)
      → Stored s
      → Stored (record s { cache = f s })
  cache-Stored f s h = h

  pub ruleset read_rules = (keeps_rules, asked-Stored)

  fetch_values-Stored : (r : Release) → Keeps Stored (fetch_values o r)
  unfolding fetch_values
  fetch_values-Stored r = search read_rules depth 12

  collect_release-Stored :
      (r : Release) (out : Dict Text Values) (v : Option Values)
      → Keeps Stored (collect_release o r out v)
  unfolding collect_release
  collect_release-Stored r out none = search keeps_rules
  collect_release-Stored r out (some v) = search keeps_rules

  collect_releases-Stored :
      (rs : List Release) (out : Dict Text Values) → Keeps Stored (collect_releases o rs out)
  unfolding collect_releases
  collect_releases-Stored [] out = search keeps_rules
  collect_releases-Stored (r ∷ rs) out =
      search (keeps_rules, fetch_values-Stored, collect_release-Stored, collect_releases-Stored rs)
        depth 12

  pub releases-Stored : Keeps Stored (releases o)
  unfolding releases
  releases-Stored = search (read_rules, collect_releases-Stored) depth 12

  -- Stored, and the property of the entries that an action returns.
  abbrev With : {A : Type 0} → (A → Dict Text Entry) → A → State → Type 0
  With f a s = Stored s × Here (f a)

  abbrev same : Dict Text Entry → Dict Text Entry
  same d = d

  -- One world healed in the ConfigMap and among the entries.
  write_healed :
      (k : Text) (e : Entry) (d : Dict Text Entry)
      → (w ≡ k → Φ (some e))
      → Here d
      → Meets Stored (do call o (put_configmap k e); pure (put d k e)) (With same) Stored
  write_healed k e d new h =
      Meets-bind {Q = λ _. Stored} (call o (put_configmap k e)) _
        (Meets-of_Keeps (Keeps-call o (put_configmap k e) (put-Stored k e new)) (λ _ s p. p)
          (λ s p. p))
        (λ _. Meets-pure _ (λ s p. (p, Here-put d k e new h)))

  -- The record of `w` itself, where the entry is that of `w`.
  at_w :
      (k : Text) (v : Values) (d : Dict Text Entry) (x : Option Entry)
      → get d k ≡ x
      → Here d
      → w ≡ k
      → Φ (some (healed v x))
  at_w k v d x e h same' = heals v x (subst Φ (ap (get d) same' ∙ e) h)

  heal_entry-Here :
      (k : Text) (v : Values) (d : Dict Text Entry) (x : Option Entry)
      → get d k ≡ x
      → Here d
      → Meets Stored (heal_entry o k v d x) (With same) Stored
  unfolding heal_entry
  heal_entry-Here k v d none e h =
      write_healed k _ d (λ i. unfold healed in at_w k v d none e h i) h
  heal_entry-Here k v d (some x) e h = elim (Bool-cases (eqb x.spec.port 0)) [
    | inl lost ↦ rw lost (
        write_healed k _ d
          (λ i. subst (λ y. Φ (some y)) (healed-lost v x lost) (at_w k v d (some x) e h i)) h)
    | inr known ↦
        elim (Bool-cases (eqb x.spec.rcon_port 0 && not (eqb (spec_from_values v).rcon_port 0))) [
          | inl adopt ↦
              rw (known, adopt)
                (Meets-pure _ (λ s p. (
                  p,
                  Here-put d k _
                      (λ i.
                        subst (λ y. Φ (some y)) (healed-adopt v x known adopt)
                          (at_w k v d (some x) e h i))
                      h,
                )))
          | inr keep ↦ rw (known, keep) (Meets-pure _ (λ s p. (p, h)))
        ]
  ]

  heal-Here :
      (rels : Dict Text Values) (d : Dict Text Entry)
      → Here d
      → Meets Stored (heal o rels d) (With same) Stored
  unfolding heal
  heal-Here [] d h = Meets-pure d (λ s p. (p, h))
  heal-Here ((k, v) ∷ rels) d h =
      Meets-bind {Q = With same} (heal_entry o k v d (get d k)) _
        (heal_entry-Here k v d (get d k) refl h)
        (λ d'. record { at = λ s p. (heal-Here rels d' p.1).at s p.0 })

  abbrev entries : Dict Text Entry × Dict Text Values → Dict Text Entry
  entries (d, rels) = d

  pub records-Here : Meets Stored (records o) (With entries) Stored
  unfolding records
  records-Here =
      Meets-bind {Q = λ _. Stored} (call o (asked Query.configmaps)) _
        (Meets-of_Keeps (Keeps-call o (asked Query.configmaps) (asked-Stored Query.configmaps))
          (λ _ s p. p) (λ s p. p))
        λ _.
          Meets-bind {Q = With same} (gets (λ s. s.records)) _
            (record { at = λ s p. unfold gets in (p, p) })
            λ d.
              Meets-bind {Q = λ _ s. Stored s × Here d} (releases o) _
                (Meets-of_Keeps (record { at = λ s p. (releases-Stored.at s p.0, p.1) })
                  (λ _ s p. p) (λ s p. p.0))
                λ rels.
                  Meets-bind {Q = With same} (heal o rels d) _
                    (record { at = λ s p. (heal-Here rels d p.1).at s p.0 })
                    (λ d'. Meets-pure (d', rels) (λ s p. p))

  -- What holds of the spec and the op of `w`, if the record loaded is that of `w`.
  abbrev pub Loaded :
      (Spec → Option Op → Type 0) → Text → Option Op × Option Values → State → Type 0
  Loaded Ψ name (op, v) s = Stored s × (name ≡ w → Ψ s.spec op)

  found :
      (Ψ : Spec → Option Op → Type 0) (name : Text) (d : Dict Text Entry) (e : Entry)
      → ((x : Entry) → Φ (some x) → Ψ x.spec x.op)
      → get d name ≡ some e
      → Here d
      → name ≡ w
      → Ψ e.spec e.op
  found Ψ name d e link g h i = link e (subst Φ (ap (get d) (sym i) ∙ g) h)

  pub load-Loaded :
      (Ψ : Spec → Option Op → Type 0) (name : Text)
      → ((e : Entry) → Φ (some e) → Ψ e.spec e.op)
      → Meets Stored (load o name) (Loaded Ψ name) Stored
  unfolding load maybe ◌>>=◌ modify pure
  load-Loaded Ψ name link =
      Meets-bind {Q = With entries} (records o) _ records-Here
        λ (d, rels). go d rels (get d name) refl
    where
      go :
          (d : Dict Text Entry) (rels : Dict Text Values) (x : Option Entry)
          → get d name ≡ x
          → Meets
              (With entries (d, rels))
              (maybe x
                (raise (record {
                  kind = not_found;
                  text = codes "world '" ++ name ++ codes "' not found";
                }))
                λ e. do modify (λ s. record s { spec = e.spec }); pure (e.op, get rels name))
              (Loaded Ψ name)
              Stored
      go d rels none g = Meets-raise _ (λ s p. p.0)
      go d rels (some e) g = record { at = λ s p. (p.0, λ i. found Ψ name d e link g p.1 i) }
