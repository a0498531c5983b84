-- ===== src/Ingest/Batch/Kept.antt =====
-- What a batch keeps while records are pushed to it.
use agbox.Common.{
  ℕ, ◌+◌, ◌-◌, ◌≡◌, ◌≤◌, ◌⊎◌, refl, inl, inr, false, Option, List, [], ◌∷◌, ◌++◌, arith, sym, subst,
  ap, ◌∙◌, length,
}
use agbox.Core.Base.{Text, Result, ok, bind-ok}
use agbox.Adapters.Decoder.{DecoderState}
use agbox.Ingest.Batch.{
  CursorState, ContentRefWrite, IngestionChunk, Contribution, BatchBuilder, IngestError, store,
  semantic_measurement_mismatch, add_lengths, optional, Texts, measured_semantic_bytes,
  semantic_bytes, new, empty_chunk, max_batch_bytes, usize_max,
}
use agbox.Ingest.Batch.Builder.{
  cursor_semantic_bytes, push_contents, accept, candidate_over_limit, replaced_bytes,
  candidate_bytes, finish, finished_chunk,
}
use agbox.Ingest.Batch.Sums.{Sums, add_lengths-Sums, add_lengths-le, Sums-add_lengths}
use agbox.Ingest.Batch.Measured.{
  cursor_bytes, Parts, ChunkParts, ContributionParts, Sums-Parts, Parts-Sums, Parts-append,
}

ok_is : {A : Type 0} (a b : A) → ◌≡◌ {A = Result IngestError A} (ok a) (ok b) → a ≡ b
ok_is a b h = cc

cursor_semantic_bytes-cursor_bytes :
    (c : CursorState) (n : ℕ) → cursor_semantic_bytes c ≡ ok n → n ≡ cursor_bytes c
unfolding cursor_semantic_bytes
cursor_semantic_bytes-cursor_bytes c n h =
    let (m, (k, (z, s, e), f), g) =
      add_lengths-Sums semantic_measurement_mismatch (length c.source_id) _ n h in
    omega (arith, s, e, f, g)

Sums-sum :
    (overflow : IngestError) (lengths : List (Option ℕ)) (m : ℕ)
    → Sums lengths m
    → m ≤ usize_max
    → add_lengths overflow 0 lengths ≡ ok m
Sums-sum overflow lengths m s le =
    Sums-add_lengths overflow 0 lengths m s (omega (arith, le)) ∙ ap (λ (n : ℕ). ok n) (omega arith)

-- The arithmetic of a replaced cursor.
replaced_bytes-sum :
    (measured old_next new_next added k : ℕ)
    → replaced_bytes measured old_next new_next added ≡ ok k
    → (old_next ≤ measured) × (k ≡ measured - old_next + new_next + added) × (k ≤ usize_max)
replaced_bytes-sum measured old_next new_next added k h = (ground arith, ground arith, ground arith)

module _ (texts : Texts) where
  -- What the builder keeps: its measure is that of the chunk, and is within the bound once there is a record.
  pub record IsMeasured (b : BatchBuilder) : Type 0 where
    pub content_bytes : ℕ
    pub parts : ChunkParts texts b.chunk content_bytes
    pub measures :
        b.measured
        ≡ cursor_bytes b.chunk.expected_cursor + cursor_bytes b.chunk.next_cursor + content_bytes
    pub state_kept : b.chunk.next_cursor.parser_state ≡ b.state.bytes
    pub measured_fits : b.measured ≤ usize_max
    pub is_bounded : (b.record_count ≡ 0) ⊎ (b.measured ≤ max_batch_bytes)

  candidate_bytes-Parts :
      (b : BatchBuilder) (c : Contribution) (k : ℕ)
      → candidate_bytes texts b c ≡ ok k
      → (n : ℕ) × ContributionParts texts c n
        × (cursor_bytes b.chunk.next_cursor ≤ b.measured)
        × (k ≡ b.measured - cursor_bytes b.chunk.next_cursor + cursor_bytes c.next_cursor + n)
        × (k ≤ usize_max)
  unfolding candidate_bytes semantic_bytes
  candidate_bytes-Parts b c k h =
      let (old_next, o, h1) = bind-ok (cursor_semantic_bytes b.chunk.next_cursor) _ k h in
      let (new_next, w, h2) = bind-ok (cursor_semantic_bytes c.next_cursor) _ k h1 in
      let (added, a, h3) = bind-ok (semantic_bytes texts c) _ k h2 in
      let (m, s, e) = add_lengths-Sums semantic_measurement_mismatch 0 _ added a in
      let (le, sum, fits) = replaced_bytes-sum b.measured old_next new_next added k h3 in
      let same_old = cursor_semantic_bytes-cursor_bytes b.chunk.next_cursor old_next o in
      let same_new = cursor_semantic_bytes-cursor_bytes c.next_cursor new_next w in
      (
        m,
        Sums-Parts texts (c.observation ∷ []) c.events c.evidence c.evidence_links c.content_refs
            (optional c.fingerprint) (optional c.fault) m s,
        omega (arith, le, same_old),
        omega (arith, sum, same_old, same_new, e),
        fits,
      )

  pub accept-IsMeasured :
      (b : BatchBuilder) (c : Contribution) (k : ℕ)
      → IsMeasured b
      → c.next_cursor.parser_state ≡ c.next_state.bytes
      → (push_contents b.content_ids b.chunk.content_refs c.content_refs).1
        ≡ b.chunk.content_refs ++ c.content_refs
      → candidate_bytes texts b c ≡ ok k
      → candidate_over_limit k ≡ false
      → IsMeasured (accept b c k)
  unfolding accept
  accept-IsMeasured b c k v kept pushed h small =
      let (n, parts, le, sum, fits) = candidate_bytes-Parts b c k h in
      record {
        content_bytes = v.content_bytes + n;
        parts =
            subst
              (λ (contents : List ContentRefWrite).
                Parts texts (b.chunk.observations ++ (c.observation ∷ []))
                  (b.chunk.events ++ c.events) (b.chunk.evidence ++ c.evidence)
                  (b.chunk.evidence_links ++ c.evidence_links) contents
                  (b.chunk.fingerprints ++ optional c.fingerprint)
                  (b.chunk.faults ++ optional c.fault) (v.content_bytes + n))
              (sym pushed) (Parts-append texts b.chunk c v.content_bytes n v.parts parts);
        measures = omega (arith, sum, le, v.measures);
        state_kept = kept;
        measured_fits = fits;
        is_bounded = inr (ground arith);
      }

  pub chunk-measured :
      (c : IngestionChunk) (n : ℕ)
      → ChunkParts texts c n
      → cursor_bytes c.expected_cursor + cursor_bytes c.next_cursor + n ≤ usize_max
      → measured_semantic_bytes texts c
        ≡ ok (cursor_bytes c.expected_cursor + cursor_bytes c.next_cursor + n)
  unfolding measured_semantic_bytes
  chunk-measured c n parts le =
      let sums =
        Parts-Sums texts c.observations c.events c.evidence c.evidence_links c.content_refs
          c.fingerprints c.faults n parts in
      let whole : ℕ = cursor_bytes c.expected_cursor + cursor_bytes c.next_cursor + n in
      let next : ℕ = length c.next_cursor.parser_state + (32 + n) in
      Sums-sum store _ whole
        (
          length c.expected_cursor.parser_state + (length c.next_cursor.source_id + next),
          (
            length c.next_cursor.source_id + next,
            (next, (32 + n, (n, sums, refl), refl), refl),
            refl,
          ),
          omega arith,
        )
        le

  -- The chunk with the parser's state in its cursor is the chunk.
  finished_chunk-same : (b : BatchBuilder) → IsMeasured b → finished_chunk b ≡ b.chunk
  finished_chunk-same b v =
      ap
        (λ (state : Text). record b.chunk {
          next_cursor = record b.chunk.next_cursor { parser_state = state };
        })
        (sym v.state_kept)

  pub finish-IsMeasured : (b : BatchBuilder) → IsMeasured b → finish texts b ≡ ok b.chunk
  unfolding finish
  finish-IsMeasured b v =
      let same = finished_chunk-same b v in
      let measured =
        chunk-measured b.chunk v.content_bytes v.parts
          (omega (arith, v.measures, v.measured_fits)) in
      rw (same, measured, sym v.measures) (ground arith)

  -- Nothing is in a new batch but its cursors.
  empty_chunk-Parts : (cursor : CursorState) → ChunkParts texts (empty_chunk cursor) 0
  empty_chunk-Parts cursor = record {
    of_observations = 0;
    of_events = 0;
    of_evidence = 0;
    of_links = 0;
    of_contents = 0;
    of_fingerprints = 0;
    of_faults = 0;
    sum_observations = refl;
    sum_events = refl;
    sum_evidence = refl;
    sum_links = refl;
    sum_contents = refl;
    sum_fingerprints = refl;
    sum_faults = refl;
    total = omega arith;
  }

  empty_chunk-measured :
      (cursor : CursorState) (n : ℕ)
      → measured_semantic_bytes texts (empty_chunk cursor) ≡ ok n
      → (n ≡ cursor_bytes cursor + cursor_bytes cursor + 0) × (n ≤ usize_max)
  unfolding measured_semantic_bytes
  empty_chunk-measured cursor n h =
      let (m, (a, (b, (c, (d, (z, e0, e1), e2), e3), e4), e5), e6) =
        add_lengths-Sums store 0 _ n h in
      (omega (arith, e0, e1, e2, e3, e4, e5, e6), add_lengths-le store 0 _ n h (omega arith))

  pub new-IsMeasured :
      (cursor : CursorState) (state : DecoderState) (b : BatchBuilder)
      → new texts cursor state ≡ ok b
      → cursor.parser_state ≡ state.bytes
      → IsMeasured b
  unfolding new
  new-IsMeasured cursor state b h kept =
      let (n, e, f) = bind-ok (measured_semantic_bytes texts (empty_chunk cursor)) _ b h in
      let (same, fits) = empty_chunk-measured cursor n e in
      subst IsMeasured (ok_is _ b f) record {
        content_bytes = 0;
        parts = empty_chunk-Parts cursor;
        measures = same;
        state_kept = kept;
        measured_fits = fits;
        is_bounded = inl refl;
      }
