-- ===== src/Updater/View.antt =====
-- What the manager holds during a job of the updater, and how the calls on the manager (pkg/pup/actions.go
-- and pkg/pup/manager.go) change it.
use dogeboxd.Base.{
  String, ◌≡◌, refl, ◌∙◌, true, false, some, List, [], ◌∷◌, ◌==◌, Map, put, delete, eq_refl, any,
  Bool-cases, Option-cases, inl, inr,
}
use dogeboxd.Base.Steps.{Result, ok, err, Step, Ends, returned, failed, Ends-map, and_then-Ends}
use dogeboxd.Pups.Health.{RunStatus}
use dogeboxd.Pups.State.{
  PupState, UpdateFn, apply_updates, broken, set_pup_broken_reason, set_pup_installation,
  pup_enabled,
}
use dogeboxd.Pups.Manager.{
  Managed, Machine, Snapshot, health_check_pup_state, on_machine, with_machine, update_pup, get_pup,
  stop_pup, create_snapshot, snapshot_of, get_snapshot, delete_snapshot, renamed,
}
use dogeboxd.Updater.Host.{DogeboxState}

-- What the jobs of the updater change, but for the host.
pub record View : Type 0 where
  pub state : Map PupState
  pub snapshots : Map Snapshot
  pub dogebox : DogeboxState

abbrev pub view_of : {H : Type 0} → DogeboxState → Managed H → View
view_of d m = record { state = m.state; snapshots = m.snapshots; dogebox = d }

-- The pup `id` is stored and is in `Q`; all else of the manager is as in `v`.
pub record At (id : String) (v : View) (Q : PupState → Type 0) (v' : View) : Type 0 where
  pub pup : PupState
  pub is_stored : v'.state id ≡ some pup
  pub is_in : Q pup
  pub others : (j : String) → (id == j) ≡ false → v'.state j ≡ v.state j
  pub snapshots_kept : v'.snapshots ≡ v.snapshots
  pub dogebox_kept : v'.dogebox ≡ v.dogebox

-- The pup is broken for one of the reasons.
abbrev pub IsBrokenBy : List String → PupState → Type 0
IsBrokenBy reasons p = (p.installation ≡ broken) × (any (λ r. r == p.broken_reason) reasons ≡ true)

-- A pup after the updates of one call of UpdatePup.
abbrev pub changed : List UpdateFn → Map RunStatus → PupState → PupState
changed updates stats p = health_check_pup_state stats (apply_updates updates (p, [])).0

-- What marking a pup as broken makes of it.
abbrev pub Breaks : String → (PupState → Type 0) → (PupState → Type 0) → Type 0
Breaks reason Q R =
    (stats : Map RunStatus) (p : PupState)
    → Q p
    → R (changed (set_pup_broken_reason reason ∷ set_pup_installation broken ∷ []) stats p)

put_other : {V : Type 0} (k j : String) (a : V) (m : Map V) → (k == j) ≡ false → put k a m j ≡ m j
put_other k j a m h = rw h refl

put_self : {V : Type 0} (k : String) (a : V) (m : Map V) → put k a m k ≡ some a
put_self k a m = rw (eq_refl k) refl

pub put-At :
    (id : String) (v v' : View) (Q R : PupState → Type 0) (p : PupState)
    → At id v Q v'
    → R p
    → At id v R (record v' { state = put id p v'.state })
put-At id v v' Q R p a r = record {
  pup = p;
  is_stored = put_self id p v'.state;
  is_in = r;
  others = λ j h. put_other id j p v'.state h ∙ a.others j h;
  snapshots_kept = a.snapshots_kept;
  dogebox_kept = a.dogebox_kept;
}

pub At-map :
    (id : String) (v w : View) {Q R : PupState → Type 0}
    → At id v Q w
    → ((p : PupState) → Q p → R p)
    → At id v R w
At-map id v w a f = record {
  pup = a.pup;
  is_stored = a.is_stored;
  is_in = f a.pup a.is_in;
  others = a.others;
  snapshots_kept = a.snapshots_kept;
  dogebox_kept = a.dogebox_kept;
}

-- A pup that is stored.
pub stored-At :
    (id : String) (v : View) (Q : PupState → Type 0) (p : PupState)
    → v.state id ≡ some p
    → Q p
    → At id v Q v
stored-At id v Q p h q = record {
  pup = p;
  is_stored = h;
  is_in = q;
  others = λ j n. refl;
  snapshots_kept = refl;
  dogebox_kept = refl;
}

module _ {H : Type 0} {A : Type 0} where
  machine_result :
      (d : DogeboxState) (m : Managed H) (P : View → Type 0) (r : Result A × H)
      → P (view_of d m)
      → Ends (λ _ m'. P (view_of d m')) (λ _ m'. P (view_of d m')) (with_machine m r)
  machine_result d m P (ok a, h) p = returned p
  machine_result d m P (err e, h) p = failed p

  pub machine-Ends :
      (f : Step H A) (d : DogeboxState) (m : Managed H) (P : View → Type 0)
      → P (view_of d m)
      → Ends (λ _ m'. P (view_of d m')) (λ _ m'. P (view_of d m')) (on_machine f m)
  machine-Ends f d m P p = machine_result d m P (f m.machine) p

module _ {H : Type 0} (os : Machine H) (d : DogeboxState) (id : String) (v : View) where
  pub update_pup-Ends :
      (us : List UpdateFn) (m : Managed H) {Q R : PupState → Type 0}
      → At id v Q (view_of d m)
      → ((stats : Map RunStatus) (p : PupState) → Q p → R (changed us stats p))
      → Ends
          (λ p m'. R p × At id v R (view_of d m'))
          (λ _ m'. At id v R (view_of d m'))
          (update_pup os id us m)
  unfolding update_pup
  update_pup-Ends us m {Q = Q} {R = R} a step =
      let p = changed us m.stats a.pup in
      let r = step m.stats a.pup a.is_in in
      rw a.is_stored (
        and_then-Ends
          (machine-Ends (os.save_pup p) d _ (At id v R) (put-At id v (view_of d m) Q R p a r))
          (λ _ m' q. returned (r, q)))

  pub get_pup-Ends :
      (m : Managed H) {Q : PupState → Type 0} {E : String → Managed H → Type 0}
      → At id v Q (view_of d m)
      → Ends (λ r m'. Q r.0 × At id v Q (view_of d m')) E (get_pup id m)
  unfolding get_pup
  get_pup-Ends m a = rw a.is_stored (returned (a.is_in, a))

  pub stop_pup-Ends :
      (m : Managed H) {Q : PupState → Type 0}
      → At id v Q (view_of d m)
      → ((stats : Map RunStatus) (p : PupState)
          → Q p
          → Q (changed (pup_enabled false ∷ []) stats p))
      → Ends
          (λ _ m'. At id v Q (view_of d m'))
          (λ _ m'. At id v Q (view_of d m'))
          (stop_pup os id m)
  unfolding stop_pup
  stop_pup-Ends m {Q = Q} a step = and_then-Ends (get_pup-Ends m a) (λ r m b.
      elim (Bool-cases r.0.enabled) [
        | inl e ↦ rw e (
            and_then-Ends (update_pup-Ends (pup_enabled false ∷ []) m b.1 step)
              (λ _ m c. machine-Ends os.rebuild d m (At id v Q) c.1))
        | inr e ↦ rw e (returned b.1)
      ])

  renamed-Ends :
      (p : PupState) (P P' : View → Type 0) {r : Result (Unit {0}) × Managed H}
      → Ends
          (λ _ m.
            P (view_of d m)
            × P' (view_of d (record m { snapshots = put p.id (snapshot_of p) m.snapshots })))
          (λ _ m.
            P (view_of d m)
            × P' (view_of d (record m { snapshots = put p.id (snapshot_of p) m.snapshots })))
          r
      → Ends
          (λ _ m'. P' (view_of d m'))
          (λ _ m'. P (view_of d m'))
          (renamed os p.id (snapshot_of p) r)
  renamed-Ends p P P' (returned b) = returned b.1
  renamed-Ends p P P' (failed b) = failed b.0

  -- The snapshot is the only change.
  pub create_snapshot-Ends :
      (p : PupState) (m : Managed H) (P P' : View → Type 0)
      → P (view_of d m)
      → P' (view_of d (record m { snapshots = put p.id (snapshot_of p) m.snapshots }))
      → Ends (λ _ m'. P' (view_of d m')) (λ _ m'. P (view_of d m')) (create_snapshot os p m)
  unfolding create_snapshot
  create_snapshot-Ends p m P P' q q' =
      let Both =
        λ (w : View). P w × P' (record w { snapshots = put p.id (snapshot_of p) w.snapshots }) in
      and_then-Ends
        (Ends-map (machine-Ends (os.write_tmp p.id (snapshot_of p)) d m Both (q, q')) (λ _ _ b. b)
          (λ _ _ b. b.0))
        (λ _ m b. renamed-Ends p P P' (machine-Ends (os.rename_tmp p.id) d m Both b))

  pub get_snapshot-Ends :
      (m : Managed H) (P : View → Type 0)
      → P (view_of d m)
      → Ends
          (λ o m'. (o ≡ m.snapshots id) × P (view_of d m'))
          (λ _ m'. P (view_of d m'))
          (get_snapshot os id m)
  unfolding get_snapshot
  get_snapshot-Ends m P p = elim (Option-cases (m.snapshots id)) [
    | inl e ↦ rw e (returned (refl, p))
    | inr (s, e) ↦
        rw e (and_then-Ends (machine-Ends (os.read_file id) d m P p) (λ _ _ q. returned (refl, q)))
  ]

  pub delete_snapshot-Ends :
      (m : Managed H) (P : View → Type 0)
      → P (view_of d m)
      → P (view_of d (record m { snapshots = delete id m.snapshots }))
      → Ends (λ _ m'. P (view_of d m')) (λ _ m'. P (view_of d m')) (delete_snapshot os id m)
  unfolding delete_snapshot
  delete_snapshot-Ends m P p p' =
      let Both = λ (w : View). P w × P (record w { snapshots = delete id w.snapshots }) in
      elim (Option-cases (m.snapshots id)) [
        | inl e ↦ rw e (returned p)
        | inr (s, e) ↦ rw e (
            and_then-Ends
              (Ends-map (machine-Ends (os.remove_file id) d m Both (p, p')) (λ _ _ b. b)
                (λ _ _ b. b.0))
              (λ _ _ b. returned b.1))
      ]
