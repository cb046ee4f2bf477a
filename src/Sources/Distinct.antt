-- ===== src/Sources/Distinct.antt =====
-- No two sources share an id or a location (AddSource and RemoveSource of pkg/sources/source.go).
use dogeboxd.Base.{
  String, ◌≡◌, refl, Bool, true, false, Option, none, some, List, [], ◌∷◌, ◌++◌, ◌==◌, ◌||◌, not,
  all, if◌then◌else◌, Bool-cases, Option-cases, inl, inr, some_inj, subst, ap, eq_iff,
}
use dogeboxd.Base.Steps.{Result, ok, err, Step, Ends, returned, failed}
use dogeboxd.Sources.{
  find_source, Source, Sourced, SourceHost, conflict, without_last, on_host, with_host,
}

-- Whether two sources share an id or a location.
abbrev pub clash : Source → Source → Bool
clash a b = (a.id == b.id) || (a.location == b.location)

-- A source has no clash with those that follow it.
abbrev pub AreDistinct : List Source → Type 0
AreDistinct [] = Unit
AreDistinct (s ∷ ss) = (all (λ r. not (clash s r)) ss ≡ true) × AreDistinct ss

conflict-none :
    (c s : Source) (ss : List Source)
    → conflict c (s ∷ ss) ≡ none
    → (clash s c ≡ false) × (conflict c ss ≡ none)
conflict-none c s ss h = elim (Bool-cases (s.id == c.id)) [
  | inl e ↦ cc (rw e at h)
  | inr e ↦ elim (Bool-cases (s.location == c.location)) [
    | inl f ↦ cc (rw (e, f) at h)
    | inr f ↦ (rw (e, f) refl, rw (e, f) at h)
  ]
]

all-append_one :
    (c s : Source) (ss : List Source)
    → all (λ r. not (clash s r)) ss ≡ true
    → clash s c ≡ false
    → all (λ r. not (clash s r)) (ss ++ c ∷ []) ≡ true
all-append_one c s [] h e = rw e refl
all-append_one c s (r ∷ rs) h e = elim (Bool-cases (clash s r)) [
  | inl f ↦ cc (rw f at h)
  | inr f ↦ rw f (all-append_one c s rs (rw f at h) e)
]

pub append-AreDistinct :
    (c : Source) (ss : List Source)
    → AreDistinct ss
    → conflict c ss ≡ none
    → AreDistinct (ss ++ c ∷ [])
append-AreDistinct c [] d h = (refl, tt)
append-AreDistinct c (s ∷ ss) d h =
    let (e, k) = conflict-none c s ss h in
    (all-append_one c s ss d.0 e, append-AreDistinct c ss d.1 k)

-- What the calls on the host leave: the sources, the state manager's copy, and those of the pups.
abbrev pub Seen : Type 0
Seen = List Source × List Source × List Source

abbrev pub seen : {H : Type 0} → Sourced H → Seen
seen t = (t.sources, t.config, t.pup_sources)

-- The list without its last source of that id.
pub record IsWithout (id : String) (ss : List Source) (m : Source) (rest : List Source)
    : Type 0 where
  pub is_last : m.id ≡ id
  pub keeps_all : (p : Source → Bool) → all p ss ≡ true → all p rest ≡ true
  pub keeps_distinct : AreDistinct ss → AreDistinct rest
  pub is_member : (p : Source → Bool) → all p ss ≡ true → p m ≡ true
  pub only_one : AreDistinct ss → find_source id rest ≡ none
  pub others : (j : String) → (id == j) ≡ false → find_source j rest ≡ find_source j ss

pub none-without_last :
    (id : String) (ss : List Source) → without_last id ss ≡ none → find_source id ss ≡ none
none-without_last id [] h = refl
none-without_last id (s ∷ ss) h = elim (Option-cases (without_last id ss)) [
  | inr ((m, rest), e) ↦ cc (rw e at h)
  | inl e ↦ elim (Bool-cases (s.id == id)) [
    | inl f ↦ cc (rw (e, f) at h)
    | inr f ↦ rw f (none-without_last id ss e)
  ]
]

all-tail :
    (p : Source → Bool) (s : Source) (ss : List Source) → all p (s ∷ ss) ≡ true → all p ss ≡ true
all-tail p s ss h = elim (Bool-cases (p s)) [ inl e ↦ rw e at h | inr e ↦ cc (rw e at h) ]

all-cons :
    (p : Source → Bool) (s : Source) (ss rest : List Source)
    → (all p ss ≡ true → all p rest ≡ true)
    → all p (s ∷ ss) ≡ true
    → all p (s ∷ rest) ≡ true
all-cons p s ss rest f h = elim (Bool-cases (p s)) [
  | inl e ↦ rw e (f (rw e at h))
  | inr e ↦ cc (rw e at h)
]

all-head : (p : Source → Bool) (s : Source) (ss : List Source) → all p (s ∷ ss) ≡ true → p s ≡ true
all-head p s ss h = elim (Bool-cases (p s)) [ inl e ↦ e | inr e ↦ cc (rw e at h) ]

apart : (s m : Source) (id : String) → m.id ≡ id → not (clash s m) ≡ true → (s.id == id) ≡ false
apart s m id e h = elim (Bool-cases (s.id == m.id)) [ inl f ↦ cc (rw f at h) | inr f ↦ rw (← e) f ]

cons-IsWithout :
    (id : String) (s m : Source) (ss rest : List Source)
    → IsWithout id ss m rest
    → IsWithout id (s ∷ ss) m (s ∷ rest)
cons-IsWithout id s m ss rest w = record {
  is_last = w.is_last;
  keeps_all = λ p. all-cons p s ss rest (w.keeps_all p);
  keeps_distinct = λ d. (w.keeps_all _ d.0, w.keeps_distinct d.1);
  is_member = λ p h. w.is_member p (all-tail p s ss h);
  only_one = λ d. rw (apart s m id w.is_last (w.is_member _ d.0)) (w.only_one d.1);
  others = λ j n. ap (λ (o : Option Source). if s.id == j then some s else o) (w.others j n);
}

other_id : (s : Source) (id j : String) → s.id ≡ id → (id == j) ≡ false → (s.id == j) ≡ false
other_id s id j e n = rw e n

here-IsWithout :
    (id : String) (s : Source) (ss : List Source)
    → s.id ≡ id
    → find_source id ss ≡ none
    → IsWithout id (s ∷ ss) s ss
here-IsWithout id s ss e n = record {
  is_last = e;
  keeps_all = λ p. all-tail p s ss;
  keeps_distinct = λ d. d.1;
  is_member = λ p h. all-head p s ss h;
  only_one = λ d. n;
  others = λ j n. rw (other_id s id j e n) refl;
}

pub without_last-IsWithout :
    (id : String) (ss : List Source) (m : Source) (rest : List Source)
    → without_last id ss ≡ some (m, rest)
    → IsWithout id ss m rest
without_last-IsWithout id [] m rest h = cc
without_last-IsWithout id (s ∷ ss) m rest h = elim (Option-cases (without_last id ss)) [
  | inr ((m', rest'), e) ↦
      let q = some_inj (rw e at h) in
      subst (λ (x : Source × List Source). IsWithout id (s ∷ ss) x.0 x.1) q
        (cons-IsWithout id s m' ss rest' (without_last-IsWithout id ss m' rest' e))
  | inl e ↦ elim (Bool-cases (s.id == id)) [
    | inl f ↦
        let q = some_inj (rw (e, f) at h) in
        subst (λ (x : Source × List Source). IsWithout id (s ∷ ss) x.0 x.1) q
          (here-IsWithout id s ss ((eq_iff s.id id).0 f) (none-without_last id ss e))
    | inr f ↦ cc (rw (e, f) at h)
  ]
]

module _ {H : Type 0} (host : SourceHost H) where
  seen_result :
      {A : Type 0} (t : Sourced H) (P : Seen → Type 0) (r : Result A × H)
      → P (seen t)
      → Ends (λ _ t'. P (seen t')) (λ _ t'. P (seen t')) (with_host t r)
  seen_result t P (ok a, h) p = returned p
  seen_result t P (err e, h) p = failed p

  pub on_host-Ends :
      {A : Type 0} (m : Step H A) (t : Sourced H) (P : Seen → Type 0)
      → P (seen t)
      → Ends (λ _ t'. P (seen t')) (λ _ t'. P (seen t')) (on_host m t)
  unfolding on_host
  on_host-Ends m t P p = seen_result t P (m t.host) p
