-- ===== src/Adapters/Queues.antt =====
-- What both states do with a `VecDeque` whose entries have keys: a list, the oldest entry first.
use agbox.Common.{
  ℕ, zero, suc, ◌-◌, ◌≡◌, ◌≤◌, refl, Bool, true, Option, none, some, List, [], ◌∷◌, ◌++◌, length,
  drop, all, if◌then◌else◌, arith,
}
use agbox.Core.Base.{Text, same_text}

-- `retain(|entry| entry.key != key)` and the removal of the first entry with a key.
module _ {A : Type 0} (key_of : A → Text) where
  abbrev pub retain_other : Text → List A → List A
  retain_other key [] = []
  retain_other key (a ∷ more) =
      let rest = retain_other key more in if same_text (key_of a) key then rest else a ∷ rest

  abbrev pub take_first : Text → List A → Option A × List A
  take_first key [] = (none, [])
  take_first key (a ∷ more) =
      let later = take_first key more in
      if same_text (key_of a) key then (some a, more) else (later.0, a ∷ later.1)

  abbrev pub find_key : Text → List A → Option A
  find_key key [] = none
  find_key key (a ∷ more) =
      let later = find_key key more in if same_text (key_of a) key then some a else later

  -- Replaces the first entry with the key.
  abbrev pub update_first : Text → (A → A) → List A → List A
  update_first key f [] = []
  update_first key f (a ∷ more) =
      let later = update_first key f more in
      if same_text (key_of a) key then f a ∷ more else a ∷ later

-- `while entries.len() > bound { entries.pop_front() }`.
abbrev pub pop_to : {A : Type 0} → ℕ → List A → List A
pop_to bound entries = drop (length entries - bound) entries

abbrev pub uncons : {A : Type 0} → List A → Option A × List A
uncons [] = (none, [])
uncons (a ∷ more) = (some a, more)

module _ {A : Type 0} (p : A → Bool) where
  pub all-append :
      (entries bs : List A) → all p entries ≡ true → all p bs ≡ true → all p (entries ++ bs) ≡ true
  all-append [] bs h k = k
  all-append (a ∷ entries) bs h k = ground (arith, all-append entries bs)

  pub all-append_left : (entries bs : List A) → all p (entries ++ bs) ≡ true → all p entries ≡ true
  all-append_left [] bs h = refl
  all-append_left (a ∷ entries) bs h = ground (arith, all-append_left entries bs)

  pub all-append_right : (entries bs : List A) → all p (entries ++ bs) ≡ true → all p bs ≡ true
  all-append_right [] bs h = h
  all-append_right (a ∷ entries) bs h = ground (arith, all-append_right entries bs)

  pub all-drop : (n : ℕ) (entries : List A) → all p entries ≡ true → all p (drop n entries) ≡ true
  all-drop zero entries h = h
  all-drop (suc n) [] h = refl
  all-drop (suc n) (a ∷ entries) h = ground (arith, all-drop n entries)

  module _ (key_of : A → Text) where
    pub all-retain_other :
        (key : Text) (entries : List A)
        → all p entries ≡ true
        → all p (retain_other key_of key entries) ≡ true
    all-retain_other key [] h = refl
    all-retain_other key (a ∷ entries) h = ground (arith, all-retain_other key entries)

    pub all-take_first :
        (key : Text) (entries : List A)
        → all p entries ≡ true
        → all p (take_first key_of key entries).1 ≡ true
    all-take_first key [] h = refl
    all-take_first key (a ∷ entries) h = ground (arith, all-take_first key entries)

    pub all-update_first :
        (key : Text) (f : A → A) (entries : List A)
        → ((a : A) → p a ≡ true → p (f a) ≡ true)
        → all p entries ≡ true
        → all p (update_first key_of key f entries) ≡ true
    all-update_first key f [] keeps h = refl
    all-update_first key f (a ∷ entries) keeps h =
        ground (arith, keeps a, all-update_first key f entries keeps)

pub length-drop :
    {A : Type 0} (n : ℕ) (entries : List A) → length (drop n entries) ≡ length entries - n
length-drop zero entries = omega arith
length-drop (suc n) [] = omega arith
length-drop (suc n) (a ∷ entries) = omega (arith, length-drop n entries)

module _ {A : Type 0} where
  pub length-pop_to-le : (bound : ℕ) (entries : List A) → length (pop_to bound entries) ≤ bound
  length-pop_to-le bound entries = omega (arith, length-drop (length entries - bound) entries)

  pub length-uncons-le : (entries : List A) → length (uncons entries).1 ≤ length entries
  length-uncons-le [] = omega arith
  length-uncons-le (a ∷ entries) = omega arith

module _ {A : Type 0} (key_of : A → Text) where
  pub length-retain_other-le :
      (key : Text) (entries : List A) → length (retain_other key_of key entries) ≤ length entries
  length-retain_other-le key [] = omega arith
  length-retain_other-le key (a ∷ entries) = ground (arith, length-retain_other-le key entries)

  pub length-take_first-le :
      (key : Text) (entries : List A) → length (take_first key_of key entries).1 ≤ length entries
  length-take_first-le key [] = omega arith
  length-take_first-le key (a ∷ entries) = ground (arith, length-take_first-le key entries)

  pub length-update_first :
      (key : Text) (f : A → A) (entries : List A)
      → length (update_first key_of key f entries) ≡ length entries
  length-update_first key f [] = refl
  length-update_first key f (a ∷ entries) = ground (arith, length-update_first key f entries)
