-- ===== src/Service/Kept/Requests.antt =====
-- src/mcdash/service.py: the requests to a world keep the ports of every world.
use k3s_minecraft.Prelude.{
  any, arith, Text, ℕ, false, Option, none, some, List, [], ◌∷◌, Dict, get, text_eq, ◌≡◌, ◌≢◌, refl,
  sym, ◌∙◌, ap, subst,
}
use k3s_minecraft.Models.{WorldSettings}
use k3s_minecraft.Service.Exec.{State, Op, Entry, Values, Outside, M, ◌>>=◌}
use k3s_minecraft.Service.Exec.Keeps.{Keeps, keeps_rules}
use k3s_minecraft.Service.Exec.Meets.{
  Meets, Post, Meets-raise, Meets-of_Keeps, Keeps-of_Meets, Meets-bind,
}
use k3s_minecraft.Service.Ports.{allocate_port, allocate_rcon_port}
use k3s_minecraft.Service.Records.{records, releases}
use k3s_minecraft.Service.Records.Laws.{releases-Stored, records-Here}
use k3s_minecraft.Service.Operations.{
  reserve, launch_reserved, create_reserved, claim, claim_if_new, refuse_taken, launch,
  create_world, world_state, values_after_create,
}
use k3s_minecraft.Service.Requests.{
  Request, launch_backup, new_world, start_world, stop_world, take_snapshot, delete_world,
  restore_backup, change_settings, change_players, deletes, respond, serve, serve_all,
}
use k3s_minecraft.Service.Settings.Keeps.{check_settings-Keeps, check_name-Keeps}
use k3s_minecraft.Service.Kept.{HasPorts, Ports, Held, heals, create_volume_and_secret-Held}
use k3s_minecraft.Service.Kept.Operations.{
  operation_rules, Ports-quiet, start-Ports, stop-Ports, snapshot-Ports, restore-Ports,
  update_settings-Ports, delete-Ports, set_whitelist-Ports,
}

module _ (o : Outside) (w : Text) (p r : ℕ) (hp : p ≢ 0) (hr : r ≢ 0) (name : Text) where
  apart_after :
      {A : Type 0} {m : M A}
      → Keeps (Ports o w p r hp hr) m
      → name ≢ w
      → Meets
          (Ports o w p r hp hr)
          m
          (λ _ s. Ports o w p r hp hr s × (name ≢ w))
          (Ports o w p r hp hr)
  apart_after k ne = Meets-of_Keeps k (λ _ s h. (h, ne)) (λ s h. h)

  claim-Ports :
      (settings : WorldSettings) (source build : Text) (d : Dict Text Entry)
      → Keeps (Ports o w p r hp hr) (claim o name settings source build d)
  unfolding claim allocate_port allocate_rcon_port refuse_taken
  claim-Ports settings source build d = search (keeps_rules, Ports-quiet) depth 16

  -- A name that a record has is refused.
  reserve-Meets :
      (settings : WorldSettings) (source build : Text)
      → Meets
          (Ports o w p r hp hr)
          (reserve o name settings source build)
          (λ _ s. Ports o w p r hp hr s × (name ≢ w))
          (Ports o w p r hp hr)
  unfolding reserve claim_if_new refuse_taken
  reserve-Meets settings source build =
      Meets-bind
        {Q = λ (x : Dict Text Entry × Dict Text Values) s.
          Ports o w p r hp hr s × HasPorts p r (get x.0 w)}
        (records o) _ (records-Here o w (HasPorts p r) (heals o w p r hp hr))
        λ x. new_only x.0 (get x.0 name) refl
    where
      new_only :
          (d : Dict Text Entry) (x : Option Entry)
          → get d name ≡ x
          → Meets
              (λ s. Ports o w p r hp hr s × HasPorts p r (get d w))
              (claim_if_new o name settings source build d x)
              (λ _ s. Ports o w p r hp hr s × (name ≢ w))
              (Ports o w p r hp hr)
      new_only d (some e) g = Meets-raise _ (λ s h. h.0)
      new_only d none g = record {
        at = λ s h.
            (apart_after (claim-Ports settings source build d)
                (λ i. subst (HasPorts p r) (ap (get d) (sym i) ∙ g) h.1)).at
              s h.0;
      }

  -- What a new world's operation does after its name was found to be new.
  after_reserve :
      {B : Type 0} (settings : WorldSettings) (source build : Text) (f : Unit {0} → M B)
      → (name ≢ w → Keeps (Ports o w p r hp hr) (f tt))
      → Keeps (Ports o w p r hp hr) (reserve o name settings source build >>= f)
  after_reserve settings source build f k =
      Keeps-of_Meets {Q = λ _. Ports o w p r hp hr}
        (Meets-bind (reserve o name settings source build) f (reserve-Meets settings source build)
          (λ _. record { at = λ s h. rest s h }))
        (λ _ s h. h) (λ s h. h)
    where
      rest :
          (s : State)
          → Ports o w p r hp hr s × (name ≢ w)
          → Post (λ _. Ports o w p r hp hr) (Ports o w p r hp hr) (f tt s).0 (f tt s).1
      rest s h =
          (Meets-of_Keeps {Q = λ _. Ports o w p r hp hr} (k h.1) (λ _ s g. g) (λ s g. g)).at s h.0

  of_Held :
      {B : Type 0} (m : M B)
      → name ≢ w
      → Keeps (Held o w p r hp hr name) m
      → Keeps (Ports o w p r hp hr) m
  of_Held m ne k = record { at = λ s h. (k.at s (h, λ i. absurd (ne i))).0 }

  releases-Held : name ≢ w → Keeps (Held o w p r hp hr name) (releases o)
  releases-Held ne = record {
    at = λ s h.
        ((releases-Stored o w (HasPorts p r) (heals o w p r hp hr)).at s h.0, λ i. absurd (ne i));
  }

  launch_reserved-Held :
      (b actor : Text) → Keeps (Held o w p r hp hr name) (launch_reserved o b name actor)
  unfolding launch_reserved world_state
  launch_reserved-Held b actor = search (operation_rules, create_volume_and_secret-Held) depth 14

  launch-Ports :
      (backup : Text) (settings : WorldSettings) (actor : Text)
      → Keeps (Ports o w p r hp hr) (launch o backup name settings actor)
  unfolding launch
  launch-Ports backup settings actor =
      search (keeps_rules, Ports-quiet, check_name-Keeps, check_settings-Keeps, launched) depth 12
    where
      launched :
          (b detected : Text) (s : WorldSettings)
          → Keeps
              (Ports o w p r hp hr)
              (reserve o name s b detected >>= λ _. launch_reserved o b name actor)
      launched b detected s =
          after_reserve s b detected _ (λ ne. of_Held _ ne (launch_reserved-Held b actor))

  create_reserved-Held :
      (actor : Text) → name ≢ w → Keeps (Held o w p r hp hr name) (create_reserved o name actor)
  unfolding create_reserved world_state
  create_reserved-Held actor ne =
      search (operation_rules, create_volume_and_secret-Held, values_after_create-Held) depth 16
    where
      values_after_create-Held :
          (op : Option Op) → Keeps (Held o w p r hp hr name) (values_after_create o name op)
      values_after_create-Held none =
          unfold values_after_create in search (keeps_rules, releases-Held ne) depth 8
      values_after_create-Held (some op) = unfold values_after_create in search keeps_rules

  create_world-Ports :
      (settings : WorldSettings) (actor : Text)
      → Keeps (Ports o w p r hp hr) (create_world o name settings actor)
  unfolding create_world
  create_world-Ports settings actor =
      search (keeps_rules, check_name-Keeps, check_settings-Keeps, created) depth 12
    where
      created :
          (s : WorldSettings)
          → Keeps
              (Ports o w p r hp hr)
              (reserve o name s [] [] >>= λ _. create_reserved o name actor)
      created s = after_reserve s [] [] _ (λ ne. of_Held _ ne (create_reserved-Held actor ne))

module _ (o : Outside) (w : Text) (p r : ℕ) (hp : p ≢ 0) (hr : r ≢ 0) where
  respond-Ports : (q : Request) → deletes w q ≡ false → Keeps (Ports o w p r hp hr) (respond o q)
  unfolding respond
  respond-Ports (launch_backup backup name settings actor) h =
      search (keeps_rules, launch-Ports o w p r hp hr name backup settings actor)
  respond-Ports (new_world name settings actor) h =
      search (keeps_rules, create_world-Ports o w p r hp hr name settings actor)
  respond-Ports (start_world name actor) h = start-Ports o w p r hp hr name actor
  respond-Ports (stop_world name actor) h = stop-Ports o w p r hp hr name actor
  respond-Ports (take_snapshot name actor) h = snapshot-Ports o w p r hp hr name actor
  respond-Ports (delete_world name actor) h =
      delete-Ports o w p r hp hr name actor (λ e. absurd (cc ((text_eq.same_iff name w).1 e, h)))
  respond-Ports (restore_backup name backup actor) h = restore-Ports o w p r hp hr name backup actor
  respond-Ports (change_settings name settings actor) h =
      update_settings-Ports o w p r hp hr name settings actor
  respond-Ports (change_players name given actor open_to_all ops) h =
      set_whitelist-Ports o w p r hp hr name given actor open_to_all ops

-- Whatever users request other than the deletion of the world itself, whatever is answered from
-- outside and whatever raises: the record of a world that has a game port and an RCON port keeps
-- both, also where other worlds are deleted.
pub serve_all-keeps_ports :
    (o : Outside) (w : Text) (p r : ℕ) (hp : p ≢ 0) (hr : r ≢ 0) (qs : List Request) (s : State)
    → any (deletes w) qs ≡ false
    → HasPorts p r (get s.records w)
    → HasPorts p r (get (serve_all o qs s).records w)
unfolding serve_all serve any
serve_all-keeps_ports o w p r hp hr [] s others h = h
serve_all-keeps_ports o w p r hp hr (q ∷ qs) s others h =
    serve_all-keeps_ports o w p r hp hr qs (serve o q s) (ground arith)
      ((respond-Ports o w p r hp hr q (ground arith)).at s h)
