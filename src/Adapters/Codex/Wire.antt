-- ===== src/Adapters/Codex/Wire.antt =====
-- The bytes in which a state is kept. The JSON writer and reader of serde are parameters.
use agbox.Common.{
  ℕ, ◌≡◌, ◌≤◌, ◌≢◌, refl, Option, none, some, [], ◌∷◌, arith, length, subst, ap, ◌∙◌,
}
use mathlib.Core.Option
use agbox.Core.Base.{Text, Result, ok, err, ◌>>=◌, max_decoder_state_bytes}
use agbox.Adapters.Decoder.{DecodeError, malformed, DecoderState, empty, replace}
use agbox.Adapters.Codex.{CodexStateV1, validate, default}
use agbox.Adapters.Codex.Operations.{Outcome, fit_serialized_bound}
use agbox.Adapters.Codex.Validity.{IsValid, validate-eq-ok, fit-IsValid}
use agbox.Adapters.Codex.Fit.{IsFitted, fit_serialized_bound-IsFitted, Fits}

module _ (print : CodexStateV1 → Option Text) (parse : Text → Option CodexStateV1) where
  -- `serialized_len` counts the bytes of the same text.
  abbrev pub measured : CodexStateV1 → Option ℕ
  measured s = Option.map length (print s)

  abbrev pub pack : Option Text → Result DecodeError DecoderState
  pack none = err (malformed "encode-codex-state")
  pack (some bytes) = replace empty bytes

  abbrev pub encode_fitted : Outcome (Unit {0}) → Result DecodeError DecoderState
  encode_fitted (s, err e) = err e
  encode_fitted (s, ok _) = pack (print s)

  unfoldable pub encode_bounded : CodexStateV1 → Result DecodeError DecoderState
  encode_bounded s = encode_fitted (fit_serialized_bound measured s)

  abbrev pub unpack : Option CodexStateV1 → Result DecodeError CodexStateV1
  unpack none = err (malformed "invalid-codex-state")
  unpack (some s) = validate s >>= λ _. ok s

  abbrev pub decode_bytes : Text → Result DecodeError CodexStateV1
  decode_bytes [] = ok default
  decode_bytes (b ∷ bytes) = unpack (parse (b ∷ bytes))

  unfoldable pub decode : DecoderState → Result DecodeError CodexStateV1
  decode state = decode_bytes state.bytes

  print-of-Fits :
      (t : CodexStateV1) (o : Option Text)
      → print t ≡ o
      → Fits measured t t
      → (text : Text) × (print t ≡ some text) × (length text ≤ max_decoder_state_bytes)
  print-of-Fits t none e (n, m, le) = absurd (ground arith)
  print-of-Fits t (some text) e (n, m, le) = (text, e, ground arith)

  -- What the JSON reader promises for a state: it reads what the writer writes, which is not empty.
  abbrev pub Reads : CodexStateV1 → Type 0
  Reads t = (text : Text) → print t ≡ some text → (parse text ≡ some t) × (text ≢ [])

  replace-ok :
      (text : Text)
      → length text ≤ max_decoder_state_bytes
      → replace empty text ≡ ok (record { bytes = text })
  unfolding replace
  replace-ok text le = ground arith

  decode-read :
      (t : CodexStateV1) (text : Text)
      → parse text ≡ some t
      → text ≢ []
      → validate t ≡ ok tt
      → decode (record { bytes = text }) ≡ ok t
  unfolding decode
  decode-read t [] p n v = absurd (n refl)
  decode-read t (b ∷ text) p n v = rw (p, v)

  -- A valid state that can be cut to its bound is encoded, and decoding gives the state that was cut.
  pub decode-encode_bounded :
      (s t : CodexStateV1)
      → validate s ≡ ok tt
      → fit_serialized_bound measured s ≡ (t, ok tt)
      → Reads t
      → (d : DecoderState) × (encode_bounded s ≡ ok d) × (decode d ≡ ok t)
  unfolding encode_bounded
  decode-encode_bounded s t v e reads =
      let fits : IsFitted measured s s.completed_semantic_keys s.agent_lifecycle (t, ok tt) =
        subst (IsFitted measured s s.completed_semantic_keys s.agent_lifecycle) e
          (fit_serialized_bound-IsFitted measured s) in
      let (text, p, le) = print-of-Fits t (print t) refl fits.4 in
      let (read, full) = reads text p in
      let valid = (validate-eq-ok t).1 (
        subst IsValid (ap (λ (o : Outcome (Unit {0})). o.0) e)
          (fit-IsValid measured s ((validate-eq-ok s).0 v))) in
      (
        record { bytes = text },
        ap encode_fitted e ∙ (ap pack p ∙ replace-ok text le),
        decode-read t text read full valid,
      )
