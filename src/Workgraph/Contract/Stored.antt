-- ===== src/Workgraph/Contract/Stored.antt =====
-- Entries of the actions' map: what `entry` finds after a write.
use agbox.Common.{◌≡◌, ◌≢◌, some, arith, ap}
use agbox.Common.Assoc.{lookup}
use agbox.Core.Ordered.{lookup-put}
use agbox.Core.Base.{Text, Text-discrete, Result, ok}
use agbox.Workgraph.Contract.{RedactionError, ProjectionState, ActionProjection}
use agbox.Workgraph.Contract.Actions.{action_at, entry_or_default, store}

pub ok_eq : {A : Type 0} (a b : A) → ◌≡◌ {A = Result RedactionError A} (ok a) (ok b) → a ≡ b
ok_eq a b h = cc

lookup-store :
    (key : Text) (p : ProjectionState) (a : ActionProjection)
    → lookup Text-discrete key (store key p a).actions ≡ some a
lookup-store key p a = ground (arith, lookup-put key key a p.actions)

pub store-same :
    (key : Text) (p : ProjectionState) (a : ActionProjection) → action_at key (store key p a) ≡ a
store-same key p a = ap entry_or_default (lookup-store key p a)

pub store-other :
    (key other : Text) (p : ProjectionState) (a : ActionProjection)
    → key ≢ other
    → lookup Text-discrete other (store key p a).actions ≡ lookup Text-discrete other p.actions
store-other key other p a n = ground (arith, lookup-put other key a p.actions)
