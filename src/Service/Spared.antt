-- ===== src/Service/Spared.antt =====
-- src/mcdash/service.py: what deletes an object of a world.
pub mod Parts
pub mod Requests
pub mod Advance
use k3s_minecraft.Prelude.{Bool, true, false, ◌∷◌, ◌≡◌, refl, select}
use k3s_minecraft.Service.Exec.{
  State, Event, delete_configmap, delete_secret, delete_pvc, delete_job, uninstall, History,
}
use k3s_minecraft.Service.Exec.Keeps.{Survives}

-- The calls that delete an object of the cluster or a release.
abbrev pub destroys : Event → Bool
destroys (delete_configmap w) = true
destroys (delete_secret w) = true
destroys (delete_pvc w) = true
destroys (delete_job j) = true
destroys (uninstall w) = true
destroys _ = false

-- Those that were made or tried, the newest first.
unfoldable pub destroyed : History → History
unfolding select
destroyed h = select destroys h

-- No more than these were made or tried.
abbrev pub Spares : History → State → Type 0
Spares l s = destroyed s.history ≡ l

quiet_lem : (e : Event) (h : History) → destroys e ≡ false → destroyed (e ∷ h) ≡ destroyed h
unfolding destroyed select
quiet_lem e h q = rw q refl

pub Spares-quiet : (l : History) (e : Event) → destroys e ≡ false → Survives (Spares l) e
Spares-quiet l e q = record {
  raised = λ s h. rw (quiet_lem e s.history q) h;
  done = λ s h. rw (quiet_lem e s.history q) h;
}
