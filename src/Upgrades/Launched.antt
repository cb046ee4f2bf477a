-- ===== src/Upgrades/Launched.antt =====
-- A system update is launched only for a release that is offered (DoSystemUpdate and
-- GetUpgradableReleases of pkg/system/upgrades.go).
use Prim.Native.Nat.{Ordering}
use dogeboxd.Base.{
  both_of, String, ◌≡◌, refl, sym, subst, Bool, true, List, [], ◌∷◌, ◌++◌, ◌==◌, ◌&&◌, ◌||◌, filter,
  contains, Memᴰ, Mem-filter, ◌↔◌, ◌∙◌, ap, Bool-cases, inl, inr, ◌⊎◌, eq_iff,
}
use dogeboxd.Base.Steps.{Result, ok, err, Step, Ends, Ends-map, returned, failed, and_then-Ends}
use dogeboxd.Semver.{Semver}
use dogeboxd.Upgrades.{
  Sorting, Ref, ReleaseHost, Updating, valid_tags, is_offered, is_newer, is_gt, on_host, with_host,
  sort_desc, get_repo_tags, get_upgradable_releases_for_version, get_upgradable_releases, cleaning,
  stage_release_flake, launch, update_to, do_system_update, build_system_update_command_args,
}

contains-Mem : (s : String) (xs : List String) → contains xs s ≡ true → Memᴰ s xs
contains-Mem s [] h = cc
contains-Mem s (x ∷ xs) h = elim (Bool-cases (x == s)) [
  | inl e ↦ Memᴰ.head (sym ((eq_iff x s).0 e))
  | inr e ↦ Memᴰ.tail (contains-Mem s xs (rw e at h))
]

-- A valid version that a tag of the repository has.
abbrev pub IsTag : Semver → String → List Ref → Type 0
IsTag semver v rs =
    (r : Ref) × Memᴰ r rs × (r.short ≡ v) × ((r.is_tag && semver.valid r.short) ≡ true)

later :
    (semver : Semver) (v : String) (r : Ref) (rs : List Ref)
    → IsTag semver v rs
    → IsTag semver v (r ∷ rs)
later semver v r rs (q, m, e, b) = (q, Memᴰ.tail m, e, b)

first_or_later :
    (semver : Semver) (v : String) (r : Ref) (rs : List Ref) (xs : List String)
    → (r.is_tag && semver.valid r.short) ≡ true
    → (Memᴰ v xs → IsTag semver v rs)
    → Memᴰ v (r.short ∷ xs)
    → IsTag semver v (r ∷ rs)
first_or_later semver v r rs xs b f (Memᴰ.head e) = (r, Memᴰ.head refl, sym e, b)
first_or_later semver v r rs xs b f (Memᴰ.tail m) = later semver v r rs (f m)

valid_tags-IsTag :
    (semver : Semver) (v : String) (rs : List Ref)
    → Memᴰ v (valid_tags semver rs)
    → IsTag semver v rs
valid_tags-IsTag semver v [] m = elim m [ ]
valid_tags-IsTag semver v (r ∷ rs) m = elim (Bool-cases (r.is_tag && semver.valid r.short)) [
  | inl e ↦ first_or_later semver v r rs _ e (valid_tags-IsTag semver v rs) (rw e at m)
  | inr e ↦ later semver v r rs (valid_tags-IsTag semver v rs (rw e at m))
]

IsTag-valid_tags :
    (semver : Semver) (v : String) (rs : List Ref)
    → IsTag semver v rs
    → Memᴰ v (valid_tags semver rs)
IsTag-valid_tags semver v [] (q, m, e, b) = elim m [ ]
IsTag-valid_tags semver v (r ∷ rs) (q, Memᴰ.head i, e, b) =
    rw (subst (λ (x : Ref). (x.is_tag && semver.valid x.short) ≡ true) i b)
      (Memᴰ.head (sym e ∙ ap (λ (x : Ref). x.short) i))
IsTag-valid_tags semver v (r ∷ rs) (q, Memᴰ.tail m, e, b) =
    let rest = IsTag-valid_tags semver v rs (q, m, e, b) in
    elim (Bool-cases (r.is_tag && semver.valid r.short)) [
      | inl f ↦ rw f (Memᴰ.tail rest)
      | inr f ↦ rw f rest
    ]

module _ {H : Type 0} {A : Type 0} (m : Step H A) where
  kept :
      (t : Updating H) (l : List (List String)) (r : Result A × H)
      → t.launched ≡ l
      → Ends (λ _ t'. t'.launched ≡ l) (λ _ t'. t'.launched ≡ l) (with_host t r)
  kept t l (ok a, h) e = returned e
  kept t l (err x, h) e = failed e

  on_host-Ends :
      (t : Updating H) (l : List (List String))
      → t.launched ≡ l
      → Ends (λ _ t'. t'.launched ≡ l) (λ _ t'. t'.launched ≡ l) (on_host m t)
  unfolding on_host
  on_host-Ends t l e = kept t l (m t.host) e

  given :
      (a : A) (t : Updating H) (l : List (List String)) (r : Result A × H)
      → r.0 ≡ ok a
      → t.launched ≡ l
      → Ends (λ x t'. (x ≡ a) × (t'.launched ≡ l)) (λ _ t'. t'.launched ≡ l) (with_host t r)
  given a t l (ok x, h) p e = returned (cc, e)
  given a t l (err x, h) p e = failed e

  on_host_given-Ends :
      (a : A) (t : Updating H) (l : List (List String))
      → ((h : H) → (m h).0 ≡ ok a)
      → t.launched ≡ l
      → Ends (λ x t'. (x ≡ a) × (t'.launched ≡ l)) (λ _ t'. t'.launched ≡ l) (on_host m t)
  unfolding on_host
  on_host_given-Ends a t l p e = given a t l (m t.host) (p t.host) e

module _ {H : Type 0} (semver : Semver) (sorting : Sorting) (host : ReleaseHost H) where
  cleaning-Ends :
      {A : Type 0} (dir : String) (l : List (List String)) {r : Result A × Updating H}
      → Ends (λ _ t'. t'.launched ≡ l) (λ _ t'. t'.launched ≡ l) r
      → Ends
          (λ _ t'. t'.launched ≡ l)
          (λ _ t'. t'.launched ≡ l)
          (cleaning semver sorting host dir r)
  unfolding on_host
  cleaning-Ends dir l (returned e) = returned e
  cleaning-Ends dir l (failed e) = failed e

  stage-Ends :
      (tmp version : String) (t : Updating H) (l : List (List String))
      → t.launched ≡ l
      → Ends
          (λ _ t'. t'.launched ≡ l)
          (λ _ t'. t'.launched ≡ l)
          (stage_release_flake semver sorting host tmp version t)
  unfolding stage_release_flake
  stage-Ends tmp version t l e = and_then-Ends (on_host-Ends _ t l e) (λ dir t e.
      and_then-Ends (cleaning-Ends dir l (on_host-Ends _ t l e)) (λ _ t e.
        and_then-Ends (cleaning-Ends dir l (on_host-Ends _ t l e)) (λ hash t e.
          and_then-Ends (cleaning-Ends dir l (on_host-Ends _ t l e)) (λ _ t e.
            and_then-Ends (cleaning-Ends dir l (on_host-Ends _ t l e)) (λ _ t e.
              and_then-Ends (cleaning-Ends dir l (on_host-Ends _ t l e)) (λ _ t e.
                and_then-Ends (cleaning-Ends dir l (on_host-Ends _ t l e))
                  (λ _ t e. returned e)))))))

  -- The command with the version among its arguments was run, and no other.
  abbrev pub HasLaunched : String → List (List String) → List (List String) → Type 0
  HasLaunched version l l' =
      (dir : String) × (unit : String) × (l'
        ≡ l ++ build_system_update_command_args dir version unit ∷ [])

  abbrev pub IsOffered : String → List Ref → String → Type 0
  IsOffered current refs version =
      IsTag semver version refs × (is_newer semver version current ≡ true)

  module _ (current : String) (refs : List Ref) where
    abbrev offers : List String
    offers = sort_desc semver sorting host (
        filter (is_offered semver current true)
          (sort_desc semver sorting host (valid_tags semver refs)))

    releases-Ends :
        (t : Updating H) (l : List (List String))
        → ((h : H) → (host.list_refs h).0 ≡ ok refs)
        → ((h : H) → (host.current_release h).0 ≡ ok current)
        → t.launched ≡ l
        → Ends
            (λ rs t'. (rs ≡ offers) × (t'.launched ≡ l))
            (λ _ t'. t'.launched ≡ l)
            (get_upgradable_releases semver sorting host true t)
    unfolding get_upgradable_releases get_upgradable_releases_for_version get_repo_tags
    releases-Ends t l p q e =
        and_then-Ends (on_host_given-Ends host.current_release current t l q e) (λ c t x.
          and_then-Ends
            {Q = λ ts t'.
              (ts ≡ sort_desc semver sorting host (valid_tags semver refs)) × (t'.launched ≡ l)}
            (and_then-Ends (on_host_given-Ends host.list_refs refs t l p x.1)
              (λ rs t y. returned (rw y.0 refl, y.1)))
            (λ tags t y. returned (rw (x.0, y.0) refl, y.1)))

    Mem-offers : (v : String) → Memᴰ v offers → IsOffered current refs v
    Mem-offers v m =
        let (m₁, b) = Mem-filter _ v _ (sorting.sort-Mem _ v _ m) in
        (valid_tags-IsTag semver v refs (sorting.sort-Mem _ v _ m₁), (both_of _ _ b).0)

    abbrev Launches : String → String → List (List String) → List (List String) → Type 0
    Launches pkg version l l' =
        (pkg ≡ "os") × IsOffered current refs version × HasLaunched version l l'

    launched_one :
        (args : List String) (t : Updating H) (l : List (List String))
        → t.launched ≡ l
        → Ends
            (λ _ t'. t'.launched ≡ l ++ args ∷ [])
            (λ _ t'. t'.launched ≡ l ++ args ∷ [])
            (launch semver sorting host args t)
    unfolding launch
    launched_one args t l e = on_host-Ends (host.run_command args) _ (l ++ args ∷ []) (rw e refl)

    update_to-Ends :
        (tmp pkg version : String) (rs : List String) (t : Updating H) (l : List (List String))
        → rs ≡ offers
        → t.launched ≡ l
        → Ends
            (λ _ t'. Launches pkg version l t'.launched)
            (λ _ t'. (t'.launched ≡ l) ⊎ Launches pkg version l t'.launched)
            (update_to semver sorting host tmp pkg version rs t)
    update_to-Ends tmp pkg version rs t l r e = elim (Bool-cases (pkg == "os")) [
      | inr f ↦ rw f (failed (inl e))
      | inl f ↦ elim (Bool-cases (contains rs version)) [
        | inr g ↦ rw (f, g) (failed (inl e))
        | inl g ↦
            let offer = Mem-offers version (subst (Memᴰ version) r (contains-Mem version rs g)) in
            let os = (eq_iff pkg "os").0 f in
            rw (f, g)
              (and_then-Ends (Ends-map (stage-Ends tmp version t l e) (λ _ _ q. q) (λ _ _ q. inl q))
                (λ x t q.
                  Ends-map (launched_one _ t l q) (λ _ _ k. (os, offer, (x.0, _, k)))
                    (λ _ _ k. inr (os, offer, (x.0, _, k)))))
      ]
    ]

    -- If the repository lists these references and this release is the current one, then an update that
    -- reports no error has run the update command, once, with the version that was asked for, and an update that
    -- reports an error has run no command, or that one. A command is run only for the package `os` and
    -- a valid version that a tag of the repository has and that is newer than the current release.
    pub do_system_update-Launches :
        (tmp pkg version : String) (t : Updating H)
        → ((h : H) → (host.list_refs h).0 ≡ ok refs)
        → ((h : H) → (host.current_release h).0 ≡ ok current)
        → Ends
            (λ _ t'.
              (pkg ≡ "os")
              × IsOffered current refs version
              × HasLaunched version t.launched t'.launched)
            (λ _ t'.
              (t'.launched ≡ t.launched)
              ⊎ (pkg ≡ "os")
                × IsOffered current refs version
                × HasLaunched version t.launched t'.launched)
            (do_system_update semver sorting host tmp pkg version t)
    unfolding do_system_update
    do_system_update-Launches tmp pkg version t p q =
        let l = t.launched in
        and_then-Ends
          (Ends-map (on_host-Ends host.migrate_custom_nix t l refl) (λ _ _ x. x) (λ _ _ x. inl x))
          (λ _ t₁ e.
            and_then-Ends (Ends-map (releases-Ends t₁ l p q e) (λ _ _ x. x) (λ _ _ x. inl x))
              (λ rs t₂ x. update_to-Ends tmp pkg version rs t₂ l x.0 x.1))

is_gt-gt : (o : Ordering) → is_gt o ≡ true → o ≡ Ordering.gt
is_gt-gt Ordering.gt h = refl
is_gt-gt Ordering.eq h = cc
is_gt-gt Ordering.lt h = cc

filter-Mem :
    (p : String → Bool) (v : String) (xs : List String)
    → Memᴰ v xs
    → p v ≡ true
    → Memᴰ v (filter p xs)
filter-Mem p v [] m h = elim m [ ]
filter-Mem p v (x ∷ xs) (Memᴰ.head e) h = rw (← e, h) (Memᴰ.head refl)
filter-Mem p v (x ∷ xs) (Memᴰ.tail m) h = elim (Bool-cases (p x)) [
  | inl e ↦ rw e (Memᴰ.tail (filter-Mem p v xs m h))
  | inr e ↦ rw e (filter-Mem p v xs m h)
]

module _ {H : Type 0} (semver : Semver) (sorting : Sorting) (host : ReleaseHost H) where
  offered-exactly :
      (current : String) (pre : Bool) (refs : List Ref) (v : String)
      → Memᴰ v (
          sort_desc semver sorting host (
            filter
              (is_offered semver current pre)
              (sort_desc semver sorting host (valid_tags semver refs))))
        ↔ (IsTag semver v refs
            × (semver.compare v current ≡ Ordering.gt)
            × ((pre || (semver.prerelease v == "")) ≡ true))
  offered-exactly current pre refs v = (
    λ m.
        let (m₁, b) = Mem-filter _ v _ (sorting.sort-Mem _ v _ m) in
        let (n, r) = both_of _ _ b in
        (valid_tags-IsTag semver v refs (sorting.sort-Mem _ v _ m₁), is_gt-gt _ n, r),
    λ (m, n, r). sorting.Mem-sort _ v _ (
        filter-Mem (is_offered semver current pre) v _
          (sorting.Mem-sort _ v _ (IsTag-valid_tags semver v refs m)) (rw (n, r) refl)),
  )

  -- If the repository lists these references, then a release is offered to a version exactly
  -- if it is a valid version that a reference has which is a tag, it is newer than that version and, unless
  -- pre-releases are included, it is no pre-release.
  pub get_upgradable_releases-exactly :
      (current : String) (pre : Bool) (refs : List Ref) (v : String) (t : Updating H)
      → ((h : H) → (host.list_refs h).0 ≡ ok refs)
      → Ends
          (λ rs _. Memᴰ v rs ↔ (
            IsTag semver v refs
            × (semver.compare v current ≡ Ordering.gt)
            × ((pre || (semver.prerelease v == "")) ≡ true)))
          (λ _ t'. t'.launched ≡ t.launched)
          (get_upgradable_releases_for_version semver sorting host current pre t)
  unfolding get_upgradable_releases_for_version get_repo_tags
  get_upgradable_releases-exactly current pre refs v t p =
      and_then-Ends {Q = λ ts t'. ts ≡ sort_desc semver sorting host (valid_tags semver refs)}
        (and_then-Ends (on_host_given-Ends host.list_refs refs t t.launched p refl)
          (λ rs t y. returned (rw y.0 refl)))
        (λ tags t y. returned (rw y (offered-exactly current pre refs v)))
