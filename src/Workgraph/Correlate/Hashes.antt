-- ===== src/Workgraph/Correlate/Hashes.antt =====
-- What `bounded_unique` keeps of the hashes.
use agbox.Common.{
  ℕ, suc, ◌-◌, ◌≡◌, ◌≤◌, ◌⊎◌, inl, inr, refl, Bool, true, false, ◌||◌, List, [], ◌∷◌, length, ltb,
  arith, Bool-cases, if◌then◌else◌,
}
use agbox.Core.Base.{Text}
use agbox.Workgraph.Correlate.{set_insert, pop_last, bounded_unique, bounded_unique_loop}

-- The set of all the values.
abbrev pub insert_all : List Text → List Text → List Text
insert_all unique [] = unique
insert_all unique (value ∷ values) = insert_all (set_insert value unique) values

length-set_insert-le :
    (value : Text) (unique : List Text) → length (set_insert value unique) ≤ suc (length unique)
length-set_insert-le value [] = omega arith
length-set_insert-le value (v ∷ unique) = ground (arith, length-set_insert-le value unique)

length-pop_last : (unique : List Text) → length (pop_last unique) ≡ length unique - 1
length-pop_last [] = omega arith
length-pop_last (v ∷ []) = omega arith
length-pop_last (v ∷ w ∷ unique) = omega (arith, length-pop_last (w ∷ unique))

bounded_unique_loop-le :
    (bound : ℕ) (unique : List Text) (cut : Bool) (values : List Text)
    → length unique ≤ bound
    → length (bounded_unique_loop bound unique cut values).0 ≤ bound
unfolding bounded_unique_loop
bounded_unique_loop-le bound unique cut [] le = le
bounded_unique_loop-le bound unique cut (value ∷ values) le =
    let grown = set_insert value unique in
    let small = length-set_insert-le value unique in
    let popped = length-pop_last grown in
    bounded_unique_loop-le bound (if ltb bound (length grown) then pop_last grown else grown)
      (cut || ltb bound (length grown)) values (ground arith)

bounded_unique_loop-cut :
    (bound : ℕ) (unique values : List Text)
    → (bounded_unique_loop bound unique true values).1 ≡ true
unfolding bounded_unique_loop
bounded_unique_loop-cut bound unique [] = refl
bounded_unique_loop-cut bound unique (value ∷ values) =
    let grown = set_insert value unique in
    bounded_unique_loop-cut bound (if ltb bound (length grown) then pop_last grown else grown)
      values

bounded_unique_loop-whole :
    (bound : ℕ) (unique values : List Text)
    → ((bounded_unique_loop bound unique false values).1 ≡ true)
      ⊎ ((bounded_unique_loop bound unique false values).0 ≡ insert_all unique values)
unfolding bounded_unique_loop
bounded_unique_loop-whole bound unique [] = inr refl
bounded_unique_loop-whole bound unique (value ∷ values) =
    let grown = set_insert value unique in
    elim (Bool-cases (ltb bound (length grown))) [
      | inl e ↦ inl (ground (arith, bounded_unique_loop-cut bound (pop_last grown) values))
      | inr e ↦ elim (bounded_unique_loop-whole bound grown values) [
        | inl h ↦ inl (ground arith)
        | inr h ↦ inr (ground arith)
      ]
    ]

-- `bounded_unique` returns at most as many values as its bound, and either says that it cut the
-- set or returns the set of all the values.
pub bounded_unique-insert_all :
    (values : List Text) (bound : ℕ)
    → (length (bounded_unique values bound).0 ≤ bound)
      × (((bounded_unique values bound).1 ≡ true)
          ⊎ ((bounded_unique values bound).0 ≡ insert_all [] values))
unfolding bounded_unique
bounded_unique-insert_all values bound = (
  bounded_unique_loop-le bound [] false values (omega arith),
  bounded_unique_loop-whole bound [] values,
)
