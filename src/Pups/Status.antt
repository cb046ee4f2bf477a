-- ===== src/Pups/Status.antt =====
-- The status that is shown of a pup from the state of its process (derivePupStatusFromProc of
-- pkg/pup/manager.go).
use dogeboxd.Base.{
  ◌≡◌, ◌≢◌, refl, String, Bool, true, false, ◌==◌, ◌&&◌, not, if◌then◌else◌, Bool-cases, ◌⊎◌, inl,
  inr,
}

pub data PupRunStatus : Type 0 where
  stopped starting running stopping : PupRunStatus

-- ProcStatus, of which the rest is metrics
pub record ProcStatus : Type 0 where
  pub is_running : Bool
  pub active_state : String

-- By the process alone.
abbrev pub from_process : Bool → Bool → PupRunStatus
from_process enabled is_running =
    if is_running && enabled
    then running
    else (if is_running && not enabled
        then stopping
        else (if not is_running && enabled then starting else stopped))

unfoldable pub derive_pup_status_from_proc : Bool → ProcStatus → PupRunStatus
derive_pup_status_from_proc enabled v =
    if v.active_state == "activating"
    then (if enabled then starting else stopping)
    else (if v.active_state == "deactivating"
        then stopping
        else (if v.active_state == "active"
            then (if not enabled then stopping else running)
            else from_process enabled v.is_running))

-- A pup that is to run, or one that is not.
abbrev pub Agrees : Bool → PupRunStatus → Type 0
Agrees true s = s ≢ stopped
Agrees false s = (s ≡ stopping) ⊎ (s ≡ stopped)

from_process-Agrees : (enabled is_running : Bool) → Agrees enabled (from_process enabled is_running)
from_process-Agrees true true = λ e. cc
from_process-Agrees true false = λ e. cc
from_process-Agrees false true = inl refl
from_process-Agrees false false = inr refl

starting-Agrees : (enabled : Bool) → Agrees enabled (if enabled then starting else stopping)
starting-Agrees true = λ e. cc
starting-Agrees false = inl refl

stopping-Agrees : (enabled : Bool) → Agrees enabled stopping
stopping-Agrees true = λ e. cc
stopping-Agrees false = inl refl

running-Agrees : (enabled : Bool) → Agrees enabled (if not enabled then stopping else running)
running-Agrees true = λ e. cc
running-Agrees false = inl refl

-- Whatever systemd reports, an enabled pup is not shown as stopped, and one that is not enabled is shown
-- as stopping or stopped.
derive_pup_status_from_proc-Agrees :
    (enabled : Bool) (v : ProcStatus) → Agrees enabled (derive_pup_status_from_proc enabled v)
unfolding derive_pup_status_from_proc
derive_pup_status_from_proc-Agrees enabled v = elim (Bool-cases (v.active_state == "activating")) [
  | inl e ↦ rw e (starting-Agrees enabled)
  | inr e ↦ elim (Bool-cases (v.active_state == "deactivating")) [
    | inl f ↦ rw (e, f) (stopping-Agrees enabled)
    | inr f ↦ elim (Bool-cases (v.active_state == "active")) [
      | inl g ↦ rw (e, f, g) (running-Agrees enabled)
      | inr g ↦ rw (e, f, g) (from_process-Agrees enabled v.is_running)
    ]
  ]
]
