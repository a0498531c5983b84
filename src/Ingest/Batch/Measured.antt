-- ===== src/Ingest/Batch/Measured.antt =====
-- The measure that `BatchBuilder` keeps up to date is that of the chunk.
use agbox.Common.{ℕ, ◌+◌, ◌≡◌, Option, List, [], ◌∷◌, ◌++◌, arith, sym, subst, length}
use agbox.Core.Source.{SourceObservation}
use agbox.Core.Activity.{ActivityEventV1}
use agbox.Ingest.Batch.{
  CursorState, ContentRefWrite, EvidenceWrite, EvidenceLink, SchemaFingerprintUpdate,
  IngestionFault, IngestionChunk, Contribution, optional, Texts, flat, observation_lengths,
  event_lengths, evidence_lengths, link_lengths, content_lengths, fingerprint_lengths,
  fault_lengths,
}
use agbox.Ingest.Batch.Sums.{Sums, Sums-append, append-Sums, flat-Sums}

abbrev pub cursor_bytes : CursorState → ℕ
cursor_bytes c = length c.source_id + length c.parser_state + 16

module _ (texts : Texts) where
  -- The sums of what a chunk or a contribution holds.
  pub record Parts (observations : List SourceObservation) (events : List ActivityEventV1)
      (evidence : List EvidenceWrite) (links : List EvidenceLink) (contents : List ContentRefWrite)
      (fingerprints : List SchemaFingerprintUpdate) (faults : List IngestionFault) (n : ℕ)
      : Type 0 where
    pub of_observations : ℕ
    pub of_events : ℕ
    pub of_evidence : ℕ
    pub of_links : ℕ
    pub of_contents : ℕ
    pub of_fingerprints : ℕ
    pub of_faults : ℕ
    pub sum_observations : Sums (flat (observation_lengths texts) observations) of_observations
    pub sum_events : Sums (flat (event_lengths texts) events) of_events
    pub sum_evidence : Sums (flat (evidence_lengths texts) evidence) of_evidence
    pub sum_links : Sums (flat link_lengths links) of_links
    pub sum_contents : Sums (flat (content_lengths texts) contents) of_contents
    pub sum_fingerprints : Sums (flat (fingerprint_lengths texts) fingerprints) of_fingerprints
    pub sum_faults : Sums (flat fault_lengths faults) of_faults
    pub total :
        n
        ≡ of_observations
          + (of_events + (of_evidence + (of_links + (of_contents + (of_fingerprints + of_faults)))))

  abbrev pub ChunkParts : IngestionChunk → ℕ → Type 0
  ChunkParts c n =
      Parts c.observations c.events c.evidence c.evidence_links c.content_refs c.fingerprints
        c.faults n

  abbrev pub ContributionParts : Contribution → ℕ → Type 0
  ContributionParts c n =
      Parts (c.observation ∷ []) c.events c.evidence c.evidence_links c.content_refs
        (optional c.fingerprint) (optional c.fault) n

  abbrev all_lengths :
      List SourceObservation
      → List ActivityEventV1
      → List EvidenceWrite
      → List EvidenceLink
      → List ContentRefWrite
      → List SchemaFingerprintUpdate
      → List IngestionFault
      → List (Option ℕ)
  all_lengths o e v l c p f =
      flat (observation_lengths texts) o
      ++ (flat (event_lengths texts) e
          ++ (flat (evidence_lengths texts) v
              ++ (flat link_lengths l
                  ++ (flat (content_lengths texts) c
                      ++ (flat (fingerprint_lengths texts) p ++ flat fault_lengths f)))))

  pub Sums-Parts :
      (o : List SourceObservation) (e : List ActivityEventV1) (v : List EvidenceWrite)
      (l : List EvidenceLink) (c : List ContentRefWrite) (p : List SchemaFingerprintUpdate)
      (f : List IngestionFault) (n : ℕ)
      → Sums (all_lengths o e v l c p f) n
      → Parts o e v l c p f n
  Sums-Parts o e v l c p f n s =
      let (n1, r1, s1, t1, e1) = append-Sums (flat (observation_lengths texts) o) _ n s in
      let (n2, r2, s2, t2, e2) = append-Sums (flat (event_lengths texts) e) _ r1 t1 in
      let (n3, r3, s3, t3, e3) = append-Sums (flat (evidence_lengths texts) v) _ r2 t2 in
      let (n4, r4, s4, t4, e4) = append-Sums (flat link_lengths l) _ r3 t3 in
      let (n5, r5, s5, t5, e5) = append-Sums (flat (content_lengths texts) c) _ r4 t4 in
      let (n6, n7, s6, s7, e6) =
        append-Sums (flat (fingerprint_lengths texts) p) (flat fault_lengths f) r5 t5 in
      record {
        of_observations = n1;
        of_events = n2;
        of_evidence = n3;
        of_links = n4;
        of_contents = n5;
        of_fingerprints = n6;
        of_faults = n7;
        sum_observations = s1;
        sum_events = s2;
        sum_evidence = s3;
        sum_links = s4;
        sum_contents = s5;
        sum_fingerprints = s6;
        sum_faults = s7;
        total = omega (arith, e1, e2, e3, e4, e5, e6);
      }

  pub Parts-Sums :
      (o : List SourceObservation) (e : List ActivityEventV1) (v : List EvidenceWrite)
      (l : List EvidenceLink) (c : List ContentRefWrite) (p : List SchemaFingerprintUpdate)
      (f : List IngestionFault) (n : ℕ)
      → Parts o e v l c p f n
      → Sums (all_lengths o e v l c p f) n
  Parts-Sums o e v l c p f n x = subst (Sums (all_lengths o e v l c p f)) (sym x.total) (
      Sums-append (flat (observation_lengths texts) o) _ x.of_observations _ x.sum_observations (
        Sums-append (flat (event_lengths texts) e) _ x.of_events _ x.sum_events (
          Sums-append (flat (evidence_lengths texts) v) _ x.of_evidence _ x.sum_evidence (
            Sums-append (flat link_lengths l) _ x.of_links _ x.sum_links (
              Sums-append (flat (content_lengths texts) c) _ x.of_contents _ x.sum_contents (
                Sums-append (flat (fingerprint_lengths texts) p) (flat fault_lengths f)
                  x.of_fingerprints x.of_faults x.sum_fingerprints x.sum_faults))))))

  pub Parts-append :
      (b : IngestionChunk) (c : Contribution) (m n : ℕ)
      → ChunkParts b m
      → ContributionParts c n
      → Parts
          (b.observations ++ (c.observation ∷ []))
          (b.events ++ c.events)
          (b.evidence ++ c.evidence)
          (b.evidence_links ++ c.evidence_links)
          (b.content_refs ++ c.content_refs)
          (b.fingerprints ++ optional c.fingerprint)
          (b.faults ++ optional c.fault)
          (m + n)
  Parts-append b c m n x y = record {
    of_observations = x.of_observations + y.of_observations;
    of_events = x.of_events + y.of_events;
    of_evidence = x.of_evidence + y.of_evidence;
    of_links = x.of_links + y.of_links;
    of_contents = x.of_contents + y.of_contents;
    of_fingerprints = x.of_fingerprints + y.of_fingerprints;
    of_faults = x.of_faults + y.of_faults;
    sum_observations =
        flat-Sums (observation_lengths texts) b.observations (c.observation ∷ []) _ _
          x.sum_observations y.sum_observations;
    sum_events = flat-Sums (event_lengths texts) b.events c.events _ _ x.sum_events y.sum_events;
    sum_evidence =
        flat-Sums (evidence_lengths texts) b.evidence c.evidence _ _ x.sum_evidence y.sum_evidence;
    sum_links =
        flat-Sums link_lengths b.evidence_links c.evidence_links _ _ x.sum_links y.sum_links;
    sum_contents =
        flat-Sums (content_lengths texts) b.content_refs c.content_refs _ _ x.sum_contents
          y.sum_contents;
    sum_fingerprints =
        flat-Sums (fingerprint_lengths texts) b.fingerprints (optional c.fingerprint) _ _
          x.sum_fingerprints y.sum_fingerprints;
    sum_faults = flat-Sums fault_lengths b.faults (optional c.fault) _ _ x.sum_faults y.sum_faults;
    total = omega (arith, x.total, y.total);
  }
