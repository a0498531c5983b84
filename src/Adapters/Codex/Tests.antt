-- ===== src/Adapters/Codex/Tests.antt =====
-- A history of a state, cut and written.
use agbox.Common.{
  ℕ, ◌≡◌, refl, Option, none, some, List, [], ◌∷◌, arith, length, ◌++◌, replicate, ◌*◌, ◌+◌,
}
use agbox.Core.Base.{Text, ok}
use agbox.Core.Strings.{bytes}
use agbox.Core.Activity.{succeeded}
use agbox.Adapters.Decoder.{DecoderState}
use agbox.Adapters.Identifiers.{bounded_identifier}
use agbox.Adapters.Codex.{CodexStateV1, CallLink, validate, default, paginated}
use agbox.Adapters.Codex.Operations.{fit_loop, fit_serialized_bound}
use agbox.Adapters.Codex.Fit.{IsFitted, fit_serialized_bound-IsFitted}
use agbox.Adapters.Codex.Run.{
  Call, observes_mode, observes_ordinal, inserts, observes_result, observes_agent, finishes, run,
  validate-run-default,
}
use agbox.Adapters.Codex.Wire.{measured, encode_bounded, decode, Reads, decode-encode_bounded}

abbrev link : CallLink
link = record { call_id = bytes "c1"; request_event_id = bytes "e1"; artifact = none }

abbrev agent : Text
agent = bytes "codex_graph_" ++ replicate 48 b'a'

abbrev calls : List Call
calls =
    observes_mode paginated
    ∷ observes_ordinal (some 4)
    ∷ inserts link
    ∷ observes_result (bytes "c1") 2
    ∷ observes_agent agent
    ∷ finishes agent succeeded
    ∷ []

-- A state with a key has a long text, any other a short one.
abbrev by_keys : CodexStateV1 → Option ℕ
by_keys s = some (length s.completed_semantic_keys * 40_000 + 100)

validate-run-default_example : validate (run by_keys default calls) ≡ ok tt
validate-run-default_example =
    validate-run-default by_keys calls (tt, (tt, (tt, (omega arith, (tt, (tt, tt))))))

abbrev keyed : CodexStateV1
keyed = record default { completed_semantic_keys = record { key = bytes "c1"; rank = 2 } ∷ [] }

-- The key is dropped.
drops : fit_serialized_bound by_keys keyed ≡ (default, ok tt)
unfolding fit_serialized_bound fit_loop
drops = refl

fit_serialized_bound-IsFitted_example :
    IsFitted by_keys keyed keyed.completed_semantic_keys [] (fit_serialized_bound by_keys keyed)
fit_serialized_bound-IsFitted_example = fit_serialized_bound-IsFitted by_keys keyed

abbrev print : CodexStateV1 → Option Text
print s = some (bytes "{}")

abbrev parse : Text → Option CodexStateV1
parse text = some keyed

reads : Reads print parse keyed
reads text e = (refl, λ nil. cc)

valid : validate keyed ≡ ok tt
unfolding validate bounded_identifier
valid = refl

kept : fit_serialized_bound (measured print parse) keyed ≡ (keyed, ok tt)
unfolding fit_serialized_bound fit_loop
kept = refl

decode-encode_bounded_example :
    (d : DecoderState) × (encode_bounded print parse keyed ≡ ok d)
    × (decode print parse d ≡ ok keyed)
decode-encode_bounded_example = decode-encode_bounded print parse keyed keyed valid kept reads
