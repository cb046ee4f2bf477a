-- ===== src/Store/Assoc.antt =====
-- A table as a list of rows, the newest first; `none` marks a deleted row. It meets the contract of
-- `Table`, so the theorems over tables have instances that run.
use dogeboxd.Base.{
  ℕ, String, ◌≡◌, refl, sym, ap, Bool, true, false, Option, none, some, List, [], ◌∷◌, ◌==◌, ◌⊎◌,
  inl, inr, if◌then◌else◌, arith, Memᴰ, subst, text_cases, some_inj,
}
use dogeboxd.Store.{Table}
use dogeboxd.Store.Rows.{change, drop}

abbrev pub Rows : Type 0 → Type 0
Rows A = List (String × Option A)

module _ {A : Type 0} where
  abbrev pub find : Rows A → String → Option A
  find [] k = none
  find ((j, a) ∷ d) k = if j == k then a else find d k

  abbrev pub map_values : (Option A → Option A) → Rows A → Rows A
  map_values f [] = []
  map_values f ((j, a) ∷ d) = (j, f a) ∷ map_values f d

  pub find-map_values :
      (f : Option A → Option A) (d : Rows A) (k : String)
      → f none ≡ none
      → find (map_values f d) k ≡ f (find d k)
  find-map_values f [] k h = sym h
  find-map_values f ((j, a) ∷ d) k h = ground (arith, find-map_values f d k h)

  abbrev pub take_row : (A → Bool) → Option A → List A → List A
  take_row p none rest = rest
  take_row p (some a) rest = if p a then a ∷ rest else rest

  -- The matching values under the listed keys.
  abbrev pub rows_of : Rows A → (A → Bool) → Rows A → List A
  rows_of d p [] = []
  rows_of d p ((k, _) ∷ keys) = take_row p (find d k) (rows_of d p keys)

  take_row_sound :
      (p : A → Bool) (o : Option A) (b : Bool) (a : A) (rest : List A)
      → Memᴰ a (take_row p o rest)
      → ((o ≡ some a) × (p a ≡ true)) ⊎ Memᴰ a rest
  take_row_sound p none b a rest m = inr m
  take_row_sound p (some x) b a rest m = go (p x) refl m
    where
      go :
          (c : Bool)
          → p x ≡ c
          → Memᴰ a (if c then x ∷ rest else rest)
          → ((some x ≡ some a) × (p a ≡ true)) ⊎ Memᴰ a rest
      go true e (Memᴰ.head q) = inl (cc q, subst (λ y. p y ≡ true) (sym q) e)
      go true e (Memᴰ.tail i) = inr i
      go false e i = inr i

  pub rows_of_sound :
      (d : Rows A) (p : A → Bool) (keys : Rows A) (a : A)
      → Memᴰ a (rows_of d p keys)
      → (k : String) × (find d k ≡ some a) × (p a ≡ true)
  rows_of_sound d p [] a m = elim m [ ]
  rows_of_sound d p ((k, x) ∷ keys) a m =
      elim (take_row_sound p (find d k) true a (rows_of d p keys) m) [
        | inl h ↦ (k, h.0, h.1)
        | inr i ↦ rows_of_sound d p keys a i
      ]

  take_row-here :
      (p : A → Bool) (a : A) (rest : List A) → p a ≡ true → Memᴰ a (take_row p (some a) rest)
  take_row-here p a rest h = rw h (Memᴰ.head refl)

  take_row-there :
      (p : A → Bool) (o : Option A) (a : A) (rest : List A)
      → Memᴰ a rest
      → Memᴰ a (take_row p o rest)
  take_row-there p none a rest m = m
  take_row-there p (some x) a rest m = elim (p x) as (λ c. Memᴰ a (if c then x ∷ rest else rest)) [
    | true ↦ Memᴰ.tail m
    | false ↦ m
  ]

  pub rows_of-complete :
      (d : Rows A) (p : A → Bool) (keys : Rows A) (k : String) (a : A)
      → find keys k ≡ find d k
      → find d k ≡ some a
      → p a ≡ true
      → Memᴰ a (rows_of d p keys)
  rows_of-complete d p [] k a same h on = cc
  rows_of-complete d p ((j, x) ∷ keys) k a same h on = elim (text_cases j k) [
    | inl e ↦
        subst (λ o. Memᴰ a (take_row p o (rows_of d p keys))) {x = some a} (ground (arith, e, h))
          (take_row-here p a (rows_of d p keys) on)
    | inr ne ↦
        take_row-there p (find d j) a (rows_of d p keys)
          (rows_of-complete d p keys k a (ground (arith, ne, same)) h on)
  ]

  pub find-set :
      (d : Rows A) (k : String) (a : A) (d' : Rows A)
      → some ((k, some a) ∷ d) ≡ some d'
      → (j : String) → find d' j ≡ (if k == j then some a else find d j)
  find-set d k a d' h j = ap (λ x. find x j) (sym (some_inj h))

  pub find-del :
      (d : Rows A) (k : String) (d' : Rows A)
      → some ((k, none) ∷ d) ≡ some d'
      → (j : String) → find d' j ≡ (if k == j then none else find d j)
  find-del d k d' h j = ap (λ x. find x j) (sym (some_inj h))

  abbrev pub assoc_table : Table A
  assoc_table = record {
    kv = record {
      Db = Rows A;
      get = find;
      set = λ d k a. some ((k, some a) ∷ d);
      del = λ d k. some ((k, none) ∷ d);
      get-set = find-set;
      get-del = find-del;
    };
    select = λ d q. some (rows_of d q.matches d);
    update = λ d p f. some (map_values (change p f) d, 0);
    remove = λ d p. some (map_values (drop p) d, 0);
    select_sound = λ d q rows h a m.
        rows_of_sound d q.matches d a (subst (λ l. Memᴰ a l) (some_inj (sym h)) m);
    select_complete = λ d q rows h u k a g on.
        subst (λ l. Memᴰ a l) (some_inj h) (rows_of-complete d q.matches d k a refl g on);
    get-update = λ d p f d' n h k.
        subst (λ (x : Rows A). find x k ≡ change p f (find d k))
          (ap (λ (x : Rows A × ℕ). x.0) (some_inj h)) (find-map_values (change p f) d k refl);
    get-remove = λ d p d' n h k.
        subst (λ (x : Rows A). find x k ≡ drop p (find d k))
          (ap (λ (x : Rows A × ℕ). x.0) (some_inj h)) (find-map_values (drop p) d k refl);
  }
