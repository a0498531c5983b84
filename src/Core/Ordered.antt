-- ===== src/Core/Ordered.antt =====
-- `BTreeMap<String, V>`: an association list in the order of its keys.
use agbox.Common.{true, false, some, List, [], ◌∷◌, All, arith, ◌≡◌, ◌≢◌, refl, ite, if◌then◌else◌}
use agbox.Common.Assoc.{lookup}
use agbox.Core.Base.{Text, same_text, Text-discrete}
use agbox.Core.Strings.{text_less}

text_less-total : (s t : Text) → text_less s t ≡ false → s ≢ t → text_less t s ≡ true
text_less-total [] [] h n = absurd (n refl)
text_less-total [] (y ∷ t) h n = ground arith
text_less-total (x ∷ s) [] h n = refl
text_less-total (x ∷ s) (y ∷ t) h n = ground (arith, text_less-total s t)

pub text_less_trans :
    (s t u : Text) → text_less s t ≡ false → text_less t u ≡ false → text_less s u ≡ false
text_less_trans [] [] u h k = k
text_less_trans [] (y ∷ t) u h k = absurd (ground arith)
text_less_trans (x ∷ s) t [] h k = refl
text_less_trans (x ∷ s) [] (z ∷ u) h k = absurd (ground arith)
text_less_trans (x ∷ s) (y ∷ t) (z ∷ u) h k = ground (arith, text_less_trans s t u)

pub text_less_asym : (s t : Text) → text_less s t ≡ true → text_less t s ≡ false
text_less_asym [] [] h = refl
text_less_asym [] (y ∷ t) h = refl
text_less_asym (x ∷ s) [] h = absurd (ground arith)
text_less_asym (x ∷ s) (y ∷ t) h = ground (arith, text_less_asym s t)

pub text_less_irrefl : (s : Text) → text_less s s ≡ false
text_less_irrefl [] = refl
text_less_irrefl (x ∷ s) = ground (arith, text_less_irrefl s)

module _ {V : Type 0} where
  unfoldable pub put : Text → V → List (Text × V) → List (Text × V)
  put k v [] = (k, v) ∷ []
  put k v ((j, w) ∷ m) =
      let rest = put k v m in
      if same_text k j
      then (k, v) ∷ m
      else if text_less k j
      then (k, v) ∷ (j, w) ∷ m
      else (j, w) ∷ rest

  abbrev pub Ascending : List (Text × V) → Type 0
  Ascending [] = Unit
  Ascending ((k, v) ∷ []) = Unit
  Ascending ((k, v) ∷ (j, w) ∷ m) = (text_less k j ≡ true) × Ascending ((j, w) ∷ m)

  pub lookup-put :
      (j k : Text) (v : V) (m : List (Text × V))
      → lookup Text-discrete j (put k v m)
        ≡ ite (Text-discrete k j) (some v) (lookup Text-discrete j m)
  unfolding put
  lookup-put j k v [] = refl
  lookup-put j k v ((i, w) ∷ m) = ground (arith, lookup-put j k v m)

  pub put-All :
      (P : Text × V → Type 0) (k : Text) (v : V) (m : List (Text × V))
      → P (k, v)
      → All P m
      → All P (put k v m)
  unfolding put
  put-All P k v [] p ps = (p, tt)
  put-All P k v ((j, w) ∷ m) p ps = ground (arith, put-All P k v m p ps.1)

  pub put-Ascending : (k : Text) (v : V) (m : List (Text × V)) → Ascending m → Ascending (put k v m)
  unfolding put
  put-Ascending k v [] a = tt
  put-Ascending k v ((j, w) ∷ []) a = ground (arith, text_less-total k j)
  put-Ascending k v ((j, w) ∷ (i, u) ∷ m) a =
      ground (arith, text_less-total k j, text_less-total k i, put-Ascending k v ((i, u) ∷ m) a.1)
