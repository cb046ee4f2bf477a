-- ===== src/Sources/Changes.antt =====
-- How the list of sources changes (AddSource and RemoveSource of pkg/sources/source.go).
use dogeboxd.Base.{
  String, ◌≡◌, refl, sym, ap, subst, ◌∙◌, true, none, List, [], ◌∷◌, ◌++◌, ◌==◌, ◌&&◌, Bool-cases,
  Option-cases, inl, inr, ◌⊎◌, filter,
}
use dogeboxd.Base.Text.{has_prefix, has_suffix}
use dogeboxd.Base.Steps.{Result, Ends, Ends-map, Ends_state, returned, failed, and_then-Ends}
use dogeboxd.Sources.{
  Source, Sourced, SourceHost, conflict, without_last, add_source, remove_source, added, removed,
  save, determine_source_type, validate, is_empty, same_source, find_source, with_host,
}
use dogeboxd.Sources.Distinct.{
  AreDistinct, append-AreDistinct, without_last-IsWithout, IsWithout, Seen, seen, on_host-Ends,
}

-- The view with other sources, which the state manager has too.
abbrev pub with_sources : List Source → Seen → Seen
with_sources ss v = (ss, ss, v.2)

-- A source was added, without a clash.
abbrev pub IsAdded : Source → Seen → Seen → Type 0
IsAdded c v w = (w ≡ with_sources (v.0 ++ c ∷ []) v) × (conflict c v.0 ≡ none)

module _ {H : Type 0} (host : SourceHost H) where
  with_host-Ends :
      (ss old : List Source) (t : Sourced H) (P : Seen → Type 0) {r : Result (Unit {0}) × H}
      → P (seen t)
      → Ends (λ _ h. host.saved h ≡ ss) (λ _ h. host.saved h ≡ old) r
      → Ends
          (λ _ t'. P (seen t') × (host.saved t'.host ≡ ss))
          (λ _ t'. P (seen t') × (host.saved t'.host ≡ old))
          (with_host t r)
  with_host-Ends ss old t P p (returned q) = returned (p, q)
  with_host-Ends ss old t P p (failed q) = failed (p, q)

  -- A save that reports no error stores the list; one that reports an error leaves what was stored.
  save-Saves :
      (t : Sourced H) (P : Seen → Type 0)
      → P (with_sources t.sources (seen t))
      → Ends
          (λ _ t'. P (seen t') × (host.saved t'.host ≡ t.sources))
          (λ _ t'. P (seen t') × (host.saved t'.host ≡ host.saved t.host))
          (save host t)
  unfolding save dogeboxd.Sources.on_host
  save-Saves t P p =
      with_host-Ends t.sources (host.saved t.host) (record t { config = t.sources }) P p
        (host.save_sources-Ends t.sources t.host)

  save-Ends :
      (t : Sourced H) (P : Seen → Type 0)
      → P (with_sources t.sources (seen t))
      → Ends (λ _ t'. P (seen t')) (λ _ t'. P (seen t')) (save host t)
  save-Ends t P p = Ends-map (save-Saves t P p) (λ _ _ q. q.0) (λ _ _ q. q.0)

  type-Ends :
      (location : String) (t : Sourced H) (P : Seen → Type 0)
      → P (seen t)
      → Ends (λ _ t'. P (seen t')) (λ _ t'. P (seen t')) (determine_source_type host location t)
  unfolding determine_source_type
  type-Ends location t P p =
      elim (Bool-cases (has_prefix location "https://" && has_suffix location ".git")) [
        | inl e ↦ rw e (returned p)
        | inr e ↦ elim (Bool-cases (has_prefix location "git@")) [
          | inl f ↦ rw (e, f) (returned p)
          | inr f ↦ elim (Bool-cases (has_prefix location "/")) [
            | inr g ↦ rw (e, f, g) (failed p)
            | inl g ↦ elim (Bool-cases (host.path_exists location t.host)) [
              | inl k ↦ rw (e, f, g, k) (returned p)
              | inr k ↦ rw (e, f, g, k) (failed p)
            ]
          ]
        ]
      ]

  validate-Ends :
      (kind location : String) (t : Sourced H) (P : Seen → Type 0)
      → P (seen t)
      → Ends (λ _ t'. P (seen t')) (λ _ t'. P (seen t')) (validate host kind location t)
  validate-Ends kind location t P p = elim (Bool-cases (kind == "disk")) [
    | inl e ↦ rw e (on_host-Ends host (host.validate_disk location) t P p)
    | inr e ↦ rw e (on_host-Ends host (host.validate_git location) t P p)
  ]

  added-Ends :
      (c : Source) (v : Seen) (t : Sourced H)
      → seen t ≡ v
      → Ends
          (λ c t'. IsAdded c v (seen t'))
          (λ _ t'. (seen t' ≡ v) ⊎ ((c : Source) × IsAdded c v (seen t')))
          (added host c (conflict c t.sources) t)
  added-Ends c v t e = elim (Option-cases (conflict c t.sources)) [
    | inr (m, f) ↦ rw f (failed (inl e))
    | inl f ↦
        let P = λ (w : Seen). IsAdded c v w in
        rw f (
          and_then-Ends
            (Ends-map
              (save-Ends (record t { sources = t.sources ++ c ∷ [] }) P
                (ap (λ (w : Seen). with_sources (w.0 ++ c ∷ []) w) e, rw (← e) f))
              (λ _ _ q. q) (λ _ _ q. inr (c, q)))
            (λ _ _ q. returned q))
  ]

  -- A source that is added is the last of the list and has the id and the location of no other. If adding a
  -- source reports an error, then either nothing has changed, or such a source was added.
  pub add_source-IsAdded :
      (location : String) (t : Sourced H)
      → Ends
          (λ c t'. IsAdded c (seen t) (seen t'))
          (λ _ t'. (seen t' ≡ seen t) ⊎ ((c : Source) × IsAdded c (seen t) (seen t')))
          (add_source host location t)
  unfolding add_source
  add_source-IsAdded location t =
      let P = λ (w : Seen). w ≡ seen t in
      and_then-Ends (Ends-map (type-Ends location t P refl) (λ _ _ q. q) (λ _ _ q. inl q))
        (λ kind t₁ p.
          and_then-Ends
            (Ends-map (validate-Ends kind location t₁ P p) (λ _ _ q. q) (λ _ _ q. inl q))
            (λ c t₂ q. added-Ends c (seen t) t₂ q))

  -- The source of that id is gone, and no managed pup is from it.
  pub record IsRemoved (id : String) (v w : Seen) : Type 0 where
    pub source : Source
    pub rest : List Source
    pub is_without : IsWithout id v.0 source rest
    pub is_left : w ≡ with_sources rest v
    pub is_unused : is_empty (filter (λ s. same_source s source) v.2) ≡ true

  -- How a removal ends: what is stored is the new list, or as before.
  abbrev Removal : String → Sourced H → Result (Unit {0}) × Sourced H → Type 0
  Removal id t =
      Ends (λ _ t'. IsRemoved id (seen t) (seen t') × (host.saved t'.host ≡ t'.sources))
        (λ _ t'.
          (host.saved t'.host ≡ host.saved t.host)
          × ((seen t' ≡ seen t) ⊎ IsRemoved id (seen t) (seen t')))

  removed-Ends :
      (id : String) (t : Sourced H) → Removal id t (removed host (without_last id t.sources) t)
  removed-Ends id t = elim (Option-cases (without_last id t.sources)) [
    | inl e ↦ rw e (failed (refl, inl refl))
    | inr ((m, rest), e) ↦
        elim (Bool-cases (is_empty (filter (λ s. same_source s m) t.pup_sources))) [
          | inr f ↦ rw (e, f) (failed (refl, inl refl))
          | inl f ↦
              rw (e, f)
                (Ends-map
                  (save-Saves (record t { sources = rest })
                    (λ w. IsRemoved id (seen t) w × (w ≡ with_sources rest (seen t)))
                    (
                      record {
                        source = m;
                        rest = rest;
                        is_without = without_last-IsWithout id t.sources m rest e;
                        is_left = refl;
                        is_unused = f;
                      },
                      refl,
                    ))
                  (λ _ _ q. (q.0.0, q.1 ∙ sym (ap (λ (w : Seen). w.0) q.0.1)))
                  (λ _ _ q. (q.1, inr q.0.0)))
        ]
  ]

  -- A removal that reports no error ends with no source of that id and with every other source found as
  -- before, and the list is what a restart reads; no managed pup is from the source that is removed. If a
  -- removal reports an error, a restart reads the list that it read before, and in memory nothing has
  -- changed or the source was removed. The ids and locations of the sources that it starts from are not
  -- shared.
  pub remove_source-Removes :
      (id : String) (t : Sourced H)
      → AreDistinct t.sources
      → Ends
          (λ _ t'.
            (find_source id t'.sources ≡ none)
            × (host.saved t'.host ≡ t'.sources)
            × IsRemoved id (seen t) (seen t'))
          (λ _ t'.
            (host.saved t'.host ≡ host.saved t.host)
            × ((seen t' ≡ seen t) ⊎ IsRemoved id (seen t) (seen t')))
          (remove_source host id t)
  unfolding remove_source
  remove_source-Removes id t d =
      Ends-map (removed-Ends id t)
        (λ _ t' q. (rw (ap (λ (w : Seen). w.0) q.0.is_left) (q.0.is_without.only_one d), q.1, q.0))
        (λ _ _ q. q)

  removed-AreDistinct :
      (id : String) (v w : Seen) → IsRemoved id v w → AreDistinct v.0 → AreDistinct w.0
  removed-AreDistinct id v w q d =
      subst (λ (w : Seen). AreDistinct w.0) (sym q.is_left) (q.is_without.keeps_distinct d)

  added-AreDistinct : (c : Source) (v w : Seen) → IsAdded c v w → AreDistinct v.0 → AreDistinct w.0
  added-AreDistinct c v w q d =
      subst (λ (w : Seen). AreDistinct w.0) (sym q.0) (append-AreDistinct c v.0 d q.1)

  -- The calls that change the list.
  pub data ListChange : Type 0 where
    add_at : String → ListChange
    remove_id : String → ListChange

  unfoldable pub change : ListChange → Sourced H → Sourced H
  change (add_at location) t = (add_source host location t).1
  change (remove_id id) t = (remove_source host id t).1

  unfoldable pub change_all : List ListChange → Sourced H → Sourced H
  change_all [] t = t
  change_all (c ∷ cs) t = change_all cs (change c t)

  change-AreDistinct :
      (c : ListChange) (t : Sourced H) → AreDistinct t.sources → AreDistinct (change c t).sources
  unfolding change
  change-AreDistinct (add_at location) t d =
      Ends_state (add_source-IsAdded location t)
        (λ c t' q. added-AreDistinct c (seen t) (seen t') q d)
        (λ _ t' q. elim q [
          | inl e ↦ subst (λ (w : Seen). AreDistinct w.0) (sym e) d
          | inr (c, a) ↦ added-AreDistinct c (seen t) (seen t') a d
        ])
  change-AreDistinct (remove_id id) t d =
      Ends_state (remove_source-Removes id t d)
        (λ _ t' q. removed-AreDistinct id (seen t) (seen t') q.2 d)
        (λ _ t' q. elim q.1 [
          | inl e ↦ subst (λ (w : Seen). AreDistinct w.0) (sym e) d
          | inr a ↦ removed-AreDistinct id (seen t) (seen t') a d
        ])

  -- Over any sequence of calls of `AddSource` and `RemoveSource`, failed ones and failures of storing
  -- included, no two sources come to share an id or a location.
  pub change_all-AreDistinct :
      (cs : List ListChange) (t : Sourced H)
      → AreDistinct t.sources
      → AreDistinct (change_all cs t).sources
  unfolding change_all
  change_all-AreDistinct [] t d = d
  change_all-AreDistinct (c ∷ cs) t d =
      change_all-AreDistinct cs (change c t) (change-AreDistinct c t d)
