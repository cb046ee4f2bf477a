-- ===== src/Base/Lists.antt =====
-- Functions on lists that the libraries have only over other numbers or as shut definitions,
-- and maps with text keys, as functions.
use Prim.Native.Nat.{ℕ, suc}
use Prim.Native.String.{String}
use mathlib.Core.Path.{◌≡◌, refl, sym, subst}
use mathlib.Core.Logic.{◌⊎◌, inl, inr}
use mathlib.Core.Bool.{Bool, true, false, ◌||◌, ◌&&◌}
use mathlib.Core.Option.{Option, none, some}
use mathlib.Core.List.{List, [], ◌∷◌, ◌++◌, Memᴰ}
use text.Mathlib.Text.{◌==◌}
use dogeboxd.Base.Tests.{if◌then◌else◌}

module _ {ℓ} {A : Type ℓ} where
  abbrev pub length : List A → ℕ
  length [] = 0
  length (x ∷ xs) = suc (length xs)

  -- Keeps the items that pass the test, in order.
  abbrev pub filter : (A → Bool) → List A → List A
  filter p [] = []
  filter p (x ∷ xs) = let rest = filter p xs in if p x then x ∷ rest else rest

  abbrev pub any : (A → Bool) → List A → Bool
  any p [] = false
  any p (x ∷ xs) = p x || any p xs

  abbrev pub all : (A → Bool) → List A → Bool
  all p [] = true
  all p (x ∷ xs) = p x && all p xs

  pub Mem-append_left : (a : A) (xs ys : List A) → Memᴰ a xs → Memᴰ a (xs ++ ys)
  Mem-append_left a [] ys m = elim m [ ]
  Mem-append_left a (x ∷ xs) ys (Memᴰ.head e) = Memᴰ.head e
  Mem-append_left a (x ∷ xs) ys (Memᴰ.tail m) = Memᴰ.tail (Mem-append_left a xs ys m)

  pub Mem-append_right : (a : A) (xs ys : List A) → Memᴰ a ys → Memᴰ a (xs ++ ys)
  Mem-append_right a [] ys m = m
  Mem-append_right a (x ∷ xs) ys m = Memᴰ.tail (Mem-append_right a xs ys m)

  pub Mem-append_cases : (a : A) (xs ys : List A) → Memᴰ a (xs ++ ys) → Memᴰ a xs ⊎ Memᴰ a ys
  Mem-append_cases a [] ys m = inr m
  Mem-append_cases a (x ∷ xs) ys (Memᴰ.head e) = inl (Memᴰ.head e)
  Mem-append_cases a (x ∷ xs) ys (Memᴰ.tail m) = elim (Mem-append_cases a xs ys m) [
    | inl l ↦ inl (Memᴰ.tail l)
    | inr r ↦ inr r
  ]

  Mem-if_cons :
      (p : A → Bool) (b : Bool) (a x : A) (xs : List A)
      → p x ≡ b
      → Memᴰ a (if b then x ∷ xs else xs)
      → ((a ≡ x) × (p x ≡ true)) ⊎ Memᴰ a xs
  Mem-if_cons p true a x xs h (Memᴰ.head e) = inl (e, h)
  Mem-if_cons p true a x xs h (Memᴰ.tail m) = inr m
  Mem-if_cons p false a x xs h m = inr m

  pub Mem-filter :
      (p : A → Bool) (a : A) (xs : List A) → Memᴰ a (filter p xs) → Memᴰ a xs × (p a ≡ true)
  Mem-filter p a [] m = elim m [ ]
  Mem-filter p a (x ∷ xs) m = elim (Mem-if_cons p (p x) a x (filter p xs) refl m) [
    | inl e ↦ (Memᴰ.head e.0, subst (λ y. p y ≡ true) (sym e.0) e.1)
    | inr i ↦ (Memᴰ.tail (Mem-filter p a xs i).0, (Mem-filter p a xs i).1)
  ]

  Mem-if_keep : (b : Bool) (a x : A) (xs : List A) → Memᴰ a xs → Memᴰ a (if b then x ∷ xs else xs)
  Mem-if_keep true a x xs m = Memᴰ.tail m
  Mem-if_keep false a x xs m = m

  pub filter-Mem :
      (p : A → Bool) (a : A) (xs : List A) → Memᴰ a xs → p a ≡ true → Memᴰ a (filter p xs)
  filter-Mem p a [] m h = elim m [ ]
  filter-Mem p a (x ∷ xs) (Memᴰ.head e) h =
      subst (λ (b : Bool). Memᴰ a (if b then x ∷ filter p xs else filter p xs))
        (sym (subst (λ y. p y ≡ true) e h)) (Memᴰ.head e)
  filter-Mem p a (x ∷ xs) (Memᴰ.tail m) h =
      Mem-if_keep (p x) a x (filter p xs) (filter-Mem p a xs m h)

-- Membership of texts as a test.
abbrev pub contains : List String → String → Bool
contains xs k = any (λ x. x == k) xs

-- A map with text keys, as the function that looks a key up.
abbrev pub Map {ℓ} : Type ℓ → Type ℓ
Map V = String → Option V

module _ {ℓ} {V : Type ℓ} where
  abbrev pub empty_map : Map V
  empty_map k = none

  -- m[k] = v
  abbrev pub put : String → V → Map V → Map V
  put k v m j = if k == j then some v else m j

  -- delete(m, k)
  abbrev pub delete : String → Map V → Map V
  delete k m j = if k == j then none else m j

  abbrev pub keep_value : (V → Bool) → Option V → Option V
  keep_value p none = none
  keep_value p (some v) = if p v then some v else none

  -- `for k, v := range m { if !p(v) { delete(m, k) } }`
  abbrev pub keep : (V → Bool) → Map V → Map V
  keep p m j = keep_value p (m j)

abbrev pub is_some {ℓ} : {A : Type ℓ} → Option A → Bool
is_some none = false
is_some (some a) = true
