-- ===== src/Ingest/Queue/Lane.antt =====
-- The lanes of the queue as lists of keys: how often a key occurs in one, and their length.
use agbox.Common.{ℕ, ◌+◌, ◌≡◌, ite, List, [], ◌∷◌, arith, count, length}
use agbox.Ingest.Queue.Key.{SourceKey, SourceKey-discrete}
use agbox.Ingest.Queue.{retain_ne}

abbrev pub occurs : SourceKey → List SourceKey → ℕ
occurs = count SourceKey-discrete

pub occurs-retain_ne :
    (j k : SourceKey) (ks : List SourceKey)
    → occurs j (retain_ne k ks) ≡ ite (SourceKey-discrete k j) 0 (occurs j ks)
occurs-retain_ne j k [] = ground arith
occurs-retain_ne j k (i ∷ ks) = ground (arith, occurs-retain_ne j k ks)

pub length-retain_ne :
    (k : SourceKey) (ks : List SourceKey) → length (retain_ne k ks) + occurs k ks ≡ length ks
length-retain_ne k [] = omega arith
length-retain_ne k (i ∷ ks) = ground (arith, length-retain_ne k ks)
