-- ===== src/Store/Rows.antt =====
-- What an `UPDATE … WHERE` and a `DELETE … WHERE` do to the row of one key.
use dogeboxd.Base.{Bool, Option, none, some, if◌then◌else◌}

module _ {A : Type 0} where
  abbrev pub change : (A → Bool) → (A → A) → Option A → Option A
  change p f none = none
  change p f (some a) = some (if p a then f a else a)

  abbrev pub drop : (A → Bool) → Option A → Option A
  drop p none = none
  drop p (some a) = if p a then none else some a
