-- ===== src/Ingest/Batch/Sums.antt =====
-- What the additions of lengths come to.
use agbox.Common.{
  ℕ, ◌+◌, ◌≡◌, ◌≤◌, refl, inl, inr, false, not, ◌&&◌, ◌||◌, Option, none, some, List, [], ◌∷◌, ◌++◌,
  append-nil, append_assoc, arith, Bool-cases, ltb, sym, subst, ap, ◌∙◌,
}
use agbox.Core.Base.{Text, ok}
use agbox.Workgraph.Correlate.{contains}
use agbox.Ingest.Batch.{IngestError, add_lengths, usize_max, flat, ContentRefWrite}
use agbox.Ingest.Batch.Builder.{retain_new, push_contents}

-- Every length is known, and this is their sum.
abbrev pub Sums : List (Option ℕ) → ℕ → Type 0
Sums [] n = n ≡ 0
Sums (none ∷ lengths) n = ⊥
Sums (some k ∷ lengths) n = (m : ℕ) × Sums lengths m × (n ≡ k + m)

pub add_lengths-Sums :
    (overflow : IngestError) (total : ℕ) (lengths : List (Option ℕ)) (n : ℕ)
    → add_lengths overflow total lengths ≡ ok n
    → (m : ℕ) × Sums lengths m × (n ≡ total + m)
unfolding add_lengths
add_lengths-Sums overflow total [] n h = (0, refl, ground arith)
add_lengths-Sums overflow total (none ∷ lengths) n h = absurd (ground arith)
add_lengths-Sums overflow total (some k ∷ lengths) n h =
    elim (Bool-cases (ltb usize_max (total + k))) [
      | inl e ↦ absurd (ground arith)
      | inr e ↦
          let (m, s, f) = add_lengths-Sums overflow (total + k) lengths n (ground arith) in
          (k + m, (m, s, refl), omega (arith, f))
    ]

pub add_lengths-le :
    (overflow : IngestError) (total : ℕ) (lengths : List (Option ℕ)) (n : ℕ)
    → add_lengths overflow total lengths ≡ ok n
    → total ≤ usize_max
    → n ≤ usize_max
unfolding add_lengths
add_lengths-le overflow total [] n h le = ground arith
add_lengths-le overflow total (none ∷ lengths) n h le = absurd (ground arith)
add_lengths-le overflow total (some k ∷ lengths) n h le =
    elim (Bool-cases (ltb usize_max (total + k))) [
      | inl e ↦ absurd (ground arith)
      | inr e ↦ add_lengths-le overflow (total + k) lengths n (ground arith) (ground arith)
    ]

pub Sums-add_lengths :
    (overflow : IngestError) (total : ℕ) (lengths : List (Option ℕ)) (m : ℕ)
    → Sums lengths m
    → total + m ≤ usize_max
    → add_lengths overflow total lengths ≡ ok (total + m)
unfolding add_lengths
Sums-add_lengths overflow total [] m s le = ap (λ (n : ℕ). ok n) (omega (arith, s))
Sums-add_lengths overflow total (none ∷ lengths) m s le = absurd s
Sums-add_lengths overflow total (some k ∷ lengths) m (rest, s, e) le =
    let more = Sums-add_lengths overflow (total + k) lengths rest s (omega (arith, e, le)) in
    let same : total + k + rest ≡ total + m = omega (arith, e) in
    elim (Bool-cases (ltb usize_max (total + k))) [
      | inl h ↦ absurd (ground (arith, e, le))
      | inr h ↦ rw h (more ∙ ap (λ (n : ℕ). ok n) same)
    ]

pub Sums-append :
    (xs ys : List (Option ℕ)) (m n : ℕ) → Sums xs m → Sums ys n → Sums (xs ++ ys) (m + n)
Sums-append [] ys m n s t = subst (Sums ys) (omega (arith, s)) t
Sums-append (none ∷ xs) ys m n s t = absurd s
Sums-append (some k ∷ xs) ys m n (rest, s, e) t =
    (rest + n, Sums-append xs ys rest n s t, omega (arith, e))

pub append-Sums :
    (xs ys : List (Option ℕ)) (n : ℕ)
    → Sums (xs ++ ys) n
    → (a : ℕ) × (b : ℕ) × Sums xs a × Sums ys b × (n ≡ a + b)
append-Sums [] ys n s = (0, n, refl, s, omega arith)
append-Sums (none ∷ xs) ys n s = absurd s
append-Sums (some k ∷ xs) ys n (rest, s, e) =
    let (a, b, x, y, f) = append-Sums xs ys rest s in
    (k + a, b, (a, x, refl), y, omega (arith, e, f))

flat-append :
    {A : Type 0} (f : A → List (Option ℕ)) (xs ys : List A)
    → flat f (xs ++ ys) ≡ flat f xs ++ flat f ys
flat-append f [] ys = refl
flat-append f (x ∷ xs) ys =
    ap (λ (l : List (Option ℕ)). f x ++ l) (flat-append f xs ys)
    ∙ sym (append_assoc (f x) (flat f xs) (flat f ys))

pub flat-Sums :
    {A : Type 0} (f : A → List (Option ℕ)) (xs ys : List A) (m n : ℕ)
    → Sums (flat f xs) m
    → Sums (flat f ys) n
    → Sums (flat f (xs ++ ys)) (m + n)
flat-Sums f xs ys m n s t =
    subst (λ (l : List (Option ℕ)). Sums l (m + n)) (sym (flat-append f xs ys))
      (Sums-append (flat f xs) (flat f ys) m n s t)

contains-append :
    (id : Text) (xs ys : List Text) → contains id (xs ++ ys) ≡ (contains id xs || contains id ys)
contains-append id [] ys = refl
contains-append id (x ∷ xs) ys = ground (arith, contains-append id xs ys)

-- Contents that are new are all pushed.
pub push_contents-retain_new :
    (known seen : List Text) (out contents : List ContentRefWrite)
    → (push_contents (seen ++ known) out (retain_new known seen contents)).1
      ≡ out ++ retain_new known seen contents
push_contents-retain_new known seen out [] = sym (append-nil out)
push_contents-retain_new known seen out (c ∷ contents) =
    elim (Bool-cases
      (not (contains c.content_ref_id known) && not (contains c.content_ref_id seen))) [
        | inl e ↦
            let rest = retain_new known (c.content_ref_id ∷ seen) contents in
            let absent : contains c.content_ref_id (seen ++ known) ≡ false =
              ground (arith, contains-append c.content_ref_id seen known) in
            rw (e, absent)
              (push_contents-retain_new known (c.content_ref_id ∷ seen) (out ++ (c ∷ [])) contents
                ∙ append_assoc out (c ∷ []) rest)
        | inr e ↦ rw e (push_contents-retain_new known seen out contents)
      ]
