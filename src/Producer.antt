-- ===== src/Producer.antt =====
-- backend/app/streaming/kafka.py: `EventProducer.send_batch`. The batch builder of aiokafka, the broker and the
-- text of a JSON value are parameters.
pub mod Batching
use real_time_distributed_si.Prelude.{
  ℕ, ◌≡◌, String, Bool, true, false, Option, none, some, List, [], ◌∷◌, ◌++◌, if◌then◌else◌, length,
  map, is_nonempty,
}
use real_time_distributed_si.Detection.{Outcome, ok, raised}

-- a record of a batch: its key and its value, as they are written
abbrev pub Message : Type 0 → Type 0
Message T = Option String × T

-- the batch builder: `create_batch`, `append` (none where the batch is full), and what a batch holds
pub record Batches (M B : Type 0) : Type 0 where
  pub create : B
  pub append : M → B → Option B
  pub records : B → List M
  pub records-create : records create ≡ []
  pub records-append :
      (m : M) (b b' : B) → append m b ≡ some b' → records b' ≡ records b ++ (m ∷ [])
  -- what some batch has room for, an empty one has room for
  pub append-create :
      (m : M) (b b' : B) → append m b ≡ some b' → (c : B) × (append m create ≡ some c)

-- `key.encode() if key else None`
unfoldable pub written_key : Option String → Option String
written_key none = none
written_key (some key) = if is_nonempty key then some key else none

-- the record of a pair, with `orjson.dumps`
unfoldable pub message : {V T : Type 0} → (V → T) → Option String × V → Message T
message dumps (key, value) = (written_key key, dumps value)

-- one batch goes to the broker, which may raise; the batches that it took come in order
unfoldable pub dispatched :
    {B : Type 0}
    → (ℕ → Option String)
    → B
    → List B
    → (List B → Outcome (Unit {0}) × List B)
    → Outcome (Unit {0}) × List B
dispatched fault b sent next = elim (fault (length sent)) [
  | some m ↦ (raised m, sent)
  | none ↦ next (sent ++ (b ∷ []))
]

module _ {M B : Type 0} ⦃bb : Batches M B⦄ where
  -- the new batch after a full one: the result of its `append` is not looked at
  unfoldable pub reopened : M → B
  reopened m = elim (bb.append m bb.create) [ none ↦ bb.create | some b ↦ b ]

  -- the loop, with the open batch
  unfoldable pub fill : (ℕ → Option String) → List M → B → List B → Outcome (Unit {0}) × List B
  unfolding dispatched reopened
  fill fault [] b sent = dispatched fault b sent (λ all. (ok tt, all))
  fill fault (m ∷ ms) b sent = elim (bb.append m b) [
    | some b' ↦ fill fault ms b' sent
    | none ↦ dispatched fault b sent (λ all. fill fault ms (reopened m) all)
  ]

-- `send_batch` on a producer that is started or not
unfoldable pub send_batch :
    {V T B : Type 0} ⦃bb : Batches (Message T) B⦄
    → (V → T)
    → (ℕ → Option String)
    → Bool
    → List (Option String × V)
    → Outcome (Unit {0}) × List B
unfolding fill message
send_batch dumps fault false values = (raised "RuntimeError", [])
send_batch ⦃bb⦄ dumps fault true values = fill fault (map (message dumps) values) bb.create []
