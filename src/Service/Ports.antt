-- ===== src/Service/Ports.antt =====
-- src/mcdash/service.py: the ports of the worlds' records.
pub mod Free
use k3s_minecraft.Prelude.{
  Text, codes, ℕ, zero, suc, ◌+◌, ◌-◌, Option, none, some, List, [], ◌∷◌, ◌++◌, Dict, text_eq,
  nat_eq, contains, if◌then◌else◌, str,
}
use k3s_minecraft.Models.{Config, conflict}
use k3s_minecraft.Service.Exec.{Entry, M, pure, raise, maybe}

-- `_used_ports`: every game and RCON port held by a record.
unfoldable pub used_ports : Dict Text Entry → List ℕ
used_ports [] = []
used_ports ((w, e) ∷ d) = e.spec.port ∷ e.spec.rcon_port ∷ used_ports d

-- `for p in range(p, p + n): if p not in used: return p`
unfoldable pub free_port : List ℕ → ℕ → ℕ → Option ℕ
unfolding contains
free_port used zero p = none
free_port used (suc n) p =
    let rest = free_port used n (p + 1) in if contains used p then rest else some p

-- The search of `range(lo, hi + 1)`.
unfoldable pub free_in : List ℕ → ℕ → ℕ → Option ℕ
unfolding free_port
free_in used lo hi = free_port used (hi + 1 - lo) lo

unfoldable pub allocate_port : Config → Dict Text Entry → M ℕ
unfolding free_in used_ports maybe
allocate_port c d =
    maybe (free_in (used_ports d) c.port_min c.port_max)
      (raise (record {
        kind = conflict;
        text =
            codes "no free ports in "
            ++ str c.port_min
            ++ codes "-"
            ++ str c.port_max
            ++ codes "; delete a world first";
      }))
      pure

unfoldable pub allocate_rcon_port : Config → Dict Text Entry → M ℕ
unfolding free_in used_ports maybe
allocate_rcon_port c d =
    maybe (free_in (used_ports d) c.rcon_port_min c.rcon_port_max)
      (raise (record {
        kind = conflict;
        text =
            codes "no free RCON ports in "
            ++ str c.rcon_port_min
            ++ codes "-"
            ++ str c.rcon_port_max
            ++ codes "; delete a world first (or widen the RCON port range)";
      }))
      pure
