-- ===== src/Ingest/Batch/Finish.antt =====
-- A batch is finished with the measure that it has kept.
use agbox.Common.{
  ℕ, ◌≡◌, ◌≤◌, ◌⊎◌, refl, false, not, ◌&&◌, [], arith, ◌==◌, if◌then◌else◌, sym, subst, ap, ◌∙◌,
  append-nil, if_cases,
}
use agbox.Core.Base.{Text, Result, ok, err, ◌>>=◌}
use agbox.Core.Source.{Provider, SourceObservation}
use agbox.Adapters.Decoder.{DecoderState}
use agbox.Ingest.Batch.{
  CursorState, Contribution, BatchBuilder, BatchPush, accepted, full_before_record, IngestError,
  no_progress, Texts, measured_semantic_bytes, new, max_batch_bytes,
}
use agbox.Ingest.Batch.Builder.{
  retain_new_content_refs, accept, candidate_over_limit, candidate_bytes, oversized,
  try_push_oversized, try_push, finish, try_push_fault, fault_contribution, decide_fault,
  synthetic_fault_observation,
}
use agbox.Ingest.Batch.Sums.{push_contents-retain_new}
use agbox.Ingest.Batch.Kept.{
  IsMeasured, accept-IsMeasured, chunk-measured, finish-IsMeasured, new-IsMeasured,
}

module _ (texts : Texts) (hash : Text → Text) where
  -- Where the push succeeds, the builder is good.
  abbrev IsGood : Result IngestError (BatchBuilder × BatchPush) → Type 0
  IsGood (ok r) = IsMeasured texts r.0
  IsGood (err e) = Unit

  bind-IsGood :
      (m : Result IngestError ℕ) (f : ℕ → Result IngestError (BatchBuilder × BatchPush))
      → ((k : ℕ) → m ≡ ok k → IsGood (f k))
      → IsGood (m >>= f)
  bind-IsGood (ok k) f good = good k refl
  bind-IsGood (err e) f good = tt

  oversized-accepted :
      (b : BatchBuilder) (c : Contribution) (k : ℕ)
      → IsMeasured texts b
      → candidate_bytes texts b (oversized hash b c) ≡ ok k
      → candidate_over_limit k ≡ false
      → IsMeasured texts (accept b (oversized hash b c) k)
  unfolding oversized
  oversized-accepted b c k v e h =
      accept-IsMeasured texts b (oversized hash b c) k v refl
        (sym (append-nil b.chunk.content_refs)) e h

  fresh-accepted :
      (b : BatchBuilder) (c : Contribution) (k : ℕ)
      → IsMeasured texts b
      → c.next_cursor.parser_state ≡ c.next_state.bytes
      → candidate_bytes texts b (retain_new_content_refs b c) ≡ ok k
      → candidate_over_limit k ≡ false
      → IsMeasured texts (accept b (retain_new_content_refs b c) k)
  unfolding retain_new_content_refs
  fresh-accepted b c k v kept e h =
      accept-IsMeasured texts b (retain_new_content_refs b c) k v kept
        (push_contents-retain_new b.content_ids [] b.chunk.content_refs c.content_refs) e h

  try_push_oversized-IsGood :
      (b : BatchBuilder) (c : Contribution)
      → IsMeasured texts b
      → IsGood (try_push_oversized texts hash b c)
  unfolding try_push_oversized
  try_push_oversized-IsGood b c v =
      bind-IsGood (candidate_bytes texts b (oversized hash b c)) _ (λ k e.
        if_cases IsGood (candidate_over_limit k) (err no_progress)
          (ok (accept b (oversized hash b c) k, accepted)) (λ h. tt)
          (λ h. oversized-accepted b c k v e h))

  try_push-IsGood :
      (b : BatchBuilder) (c : Contribution)
      → IsMeasured texts b
      → c.next_cursor.parser_state ≡ c.next_state.bytes
      → IsGood (try_push texts hash b c)
  unfolding try_push
  try_push-IsGood b c v kept =
      let fresh : Contribution = retain_new_content_refs b c in
      bind-IsGood (candidate_bytes texts b fresh) _ (λ k e.
        if_cases IsGood (candidate_over_limit k && not (b.record_count == 0))
          (ok (b, full_before_record))
          (if candidate_over_limit k
            then try_push_oversized texts hash b fresh
            else ok (accept b fresh k, accepted))
          (λ h. v)
          (λ h.
            if_cases IsGood (candidate_over_limit k) (try_push_oversized texts hash b fresh)
              (ok (accept b fresh k, accepted)) (λ l. try_push_oversized-IsGood b fresh v)
              (λ l. fresh-accepted b c k v kept e l)))

  fault-accepted :
      (b : BatchBuilder) (o : SourceObservation) (start end next_offset : ℕ) (class : Text) (k : ℕ)
      → IsMeasured texts b
      → candidate_bytes texts b (fault_contribution hash b o start end next_offset class) ≡ ok k
      → candidate_over_limit k ≡ false
      → IsMeasured texts (accept b (fault_contribution hash b o start end next_offset class) k)
  unfolding fault_contribution
  fault-accepted b o start end next_offset class k v e h =
      accept-IsMeasured texts b (fault_contribution hash b o start end next_offset class) k v
        v.state_kept (sym (append-nil b.chunk.content_refs)) e h

  decide_fault-IsGood :
      (b : BatchBuilder) (o : SourceObservation) (start end next_offset : ℕ) (class : Text) (k : ℕ)
      → IsMeasured texts b
      → candidate_bytes texts b (fault_contribution hash b o start end next_offset class) ≡ ok k
      → IsGood (decide_fault b (fault_contribution hash b o start end next_offset class) k)
  decide_fault-IsGood b o start end next_offset class k v e =
      let c : Contribution = fault_contribution hash b o start end next_offset class in
      if_cases IsGood (candidate_over_limit k)
        (if b.record_count == 0 then err no_progress else ok (b, full_before_record))
        (ok (accept b c k, accepted))
        (λ h.
          if_cases IsGood (b.record_count == 0) (err no_progress) (ok (b, full_before_record))
            (λ z. tt) (λ z. v))
        (λ h. fault-accepted b o start end next_offset class k v e h)

  bind_observation-IsGood :
      (m : Result IngestError SourceObservation)
      (f : SourceObservation → Result IngestError (BatchBuilder × BatchPush))
      → ((o : SourceObservation) → IsGood (f o))
      → IsGood (m >>= f)
  bind_observation-IsGood (ok o) f good = good o
  bind_observation-IsGood (err e) f good = tt

  try_push_fault-IsGood :
      (b : BatchBuilder) (start end next_offset : ℕ) (class format : Text) (time : ℕ)
      (provider : Provider)
      → IsMeasured texts b
      → IsGood (try_push_fault texts hash b start end next_offset class format time provider)
  unfolding try_push_fault
  try_push_fault-IsGood b start end next_offset class format time provider v =
      bind_observation-IsGood
        (synthetic_fault_observation hash b.chunk.expected_cursor start end class format time
          provider)
        _
        (λ o.
          bind-IsGood
            (candidate_bytes texts b (fault_contribution hash b o start end next_offset class)) _
            (λ k e. decide_fault-IsGood b o start end next_offset class k v e))

  -- The batches that the coordinator comes to: a new one, whose cursor has the state of the decoder, those that
  -- records are pushed to, each with its next state in its next cursor, and those that rejected
  -- records are pushed to.
  pub data Reached : BatchBuilder → Type 0 where
    starts :
        (cursor : CursorState) (state : DecoderState) (b : BatchBuilder)
        → cursor.parser_state ≡ state.bytes
        → new texts cursor state ≡ ok b
        → Reached b
    pushes :
        (b : BatchBuilder) (c : Contribution) (b' : BatchBuilder) (outcome : BatchPush)
        → Reached b
        → c.next_cursor.parser_state ≡ c.next_state.bytes
        → try_push texts hash b c ≡ ok (b', outcome)
        → Reached b'
    rejects :
        (b : BatchBuilder) (start end next_offset : ℕ) (class format : Text) (time : ℕ)
        (provider : Provider) (b' : BatchBuilder) (outcome : BatchPush)
        → Reached b
        → try_push_fault texts hash b start end next_offset class format time provider
          ≡ ok (b', outcome)
        → Reached b'

  Reached-IsMeasured : (b : BatchBuilder) → Reached b → IsMeasured texts b
  Reached-IsMeasured _ (starts cursor state b kept h) = new-IsMeasured texts cursor state b h kept
  Reached-IsMeasured _ (pushes b c b' outcome r kept h) =
      subst IsGood h (try_push-IsGood b c (Reached-IsMeasured b r) kept)
  Reached-IsMeasured _ (rejects b start end next_offset class format time provider b' outcome r h) =
      subst IsGood h (
        try_push_fault-IsGood b start end next_offset class format time provider
          (Reached-IsMeasured b r))

  -- From a new batch, and however many records, decoded or rejected, are pushed to it, `finish` succeeds: the measure that was kept up
  -- to date, record by record, is the one that the store takes of the whole chunk. The chunk is the one that
  -- was built, and once it has a record its measure is within the bound of a batch.
  pub Reached-finish :
      (b : BatchBuilder)
      → Reached b
      → (finish texts b ≡ ok b.chunk)
        × (measured_semantic_bytes texts b.chunk ≡ ok b.measured)
        × ((b.record_count ≡ 0) ⊎ (b.measured ≤ max_batch_bytes))
  Reached-finish b r =
      let v = Reached-IsMeasured b r in
      (
        finish-IsMeasured texts b v,
        chunk-measured texts b.chunk v.content_bytes v.parts
              (omega (arith, v.measures, v.measured_fits))
            ∙ ap (λ (n : ℕ). ok n) (sym v.measures),
        v.is_bounded,
      )
