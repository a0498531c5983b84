-- ===== src/Core/Base.antt =====
-- What the values of crates/agbox-core are made of. A text is the list of its bytes and an
-- identifier is a text. A time is its distance from the least time that can be represented.
use agbox.Common.{
  ℕ, ◌*◌, Bool, true, false, List, ℕ_discrete, ◌≡◌, ◌⊎◌, inl, inr, refl, arith, if◌then◌else◌, some,
}

abbrev pub Text : Type 0
Text = List ℕ

unfoldable pub Text-discrete : Discrete Text
Text-discrete = hlevel ℕ_discrete

abbrev pub same_text : Text → Text → Bool
same_text a b = elim (Text-discrete a b) [ yes _ ↦ true | no _ ↦ false ]

-- crates/agbox-core/src/limits.rs.
abbrev pub max_inline_bytes : ℕ
max_inline_bytes = 64 * 1024

abbrev pub max_preview_bytes : ℕ
max_preview_bytes = 2 * 1024

abbrev pub max_contract_items_per_field : ℕ
max_contract_items_per_field = 64

abbrev pub max_contract_source_runs : ℕ
max_contract_source_runs = 64

abbrev pub max_contract_evidence_refs : ℕ
max_contract_evidence_refs = 128

abbrev pub max_contract_serialized_bytes : ℕ
max_contract_serialized_bytes = 512 * 1024

abbrev pub max_batch_records : ℕ
max_batch_records = 1_000

abbrev pub max_batch_semantic_bytes : ℕ
max_batch_semantic_bytes = 4 * 1024 * 1024

abbrev pub max_decoder_state_bytes : ℕ
max_decoder_state_bytes = 32 * 1024

-- Fallible code returns `ok` or the first error.
pub data Result {ℓ} (E : Type ℓ) (A : Type ℓ) : Type ℓ where
  ok : A → Result E A
  err : E → Result E A

infixl 5 ◌>>=◌ ◌>>◌
abbrev pub ◌>>=◌ {ℓ} : {E A B : Type ℓ} → Result E A → (A → Result E B) → Result E B
ok a >>= f = f a
err e >>= f = err e

abbrev pub ◌>>◌ {ℓ} : {E B : Type ℓ} → Result E (Unit {ℓ}) → Result E B → Result E B
m >> k = m >>= λ _. k

-- `if refused { return Err(e) }`.
abbrev pub refuse {ℓ} : {E : Type ℓ} → Bool → E → Result E (Unit {ℓ})
refuse true e = err e
refuse false e = ok tt

abbrev pub map_err {ℓ} : {E F A : Type ℓ} → (E → F) → Result E A → Result F A
map_err f (ok a) = ok a
map_err f (err e) = err (f e)

pub Result-cases {ℓ} :
    {E A : Type ℓ} (r : Result E A) → ((a : A) × (r ≡ ok a)) ⊎ ((e : E) × (r ≡ err e))
Result-cases (ok a) = inl (a, refl)
Result-cases (err e) = inr (e, refl)

-- The step that gave a result.
pub bind-ok {ℓ} :
    {E A B : Type ℓ} (m : Result E A) (f : A → Result E B) (b : B)
    → (m >>= f) ≡ ok b
    → (a : A) × (m ≡ ok a) × (f a ≡ ok b)
bind-ok (ok a) f b e = (a, refl, e)
bind-ok (err x) f b e = absurd (ground arith)

pub if_ok :
    {E A : Type 0} (b : Bool) (a : A) (m : Result E A) (c : A)
    → (if b then ok a else m) ≡ ok c
    → (some a ≡ some c) ⊎ (m ≡ ok c)
if_ok true a m c h = inl cc
if_ok false a m c h = inr h

pub map_err_ok :
    {E F A : Type 0} (f : E → F) (m : Result E A) (a : A) → map_err f m ≡ ok a → m ≡ ok a
map_err_ok f (ok b) a h = cc
map_err_ok f (err e) a h = absurd (ground arith)

pub refuse_ok : {E : Type 0} (refused : Bool) (e : E) → refuse refused e ≡ ok tt → refused ≡ false
refuse_ok true e h = absurd (ground arith)
refuse_ok false e h = refl
