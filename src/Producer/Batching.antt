-- ===== src/Producer/Batching.antt =====
-- `send_batch` of backend/app/streaming/kafka.py: what reaches the broker.
use real_time_distributed_si.Prelude.{
  ℕ, ◌≡◌, refl, ap, sym, ◌∙◌, String, Bool, true, false, Option, none, some, List, [], ◌∷◌, ◌++◌,
  filter, map, length,
}
use mathlib.Core.Path.{subst}
use mathlib.Core.List.{append-nil, append_assoc}
use real_time_distributed_si.Detection.{Outcome, ok, raised}
use real_time_distributed_si.Producer.{
  Message, message, Batches, dispatched, reopened, fill, send_batch,
}

-- a record that an empty batch has room for
abbrev pub fits : {M B : Type 0} → Batches M B → M → Bool
fits bb m = elim (bb.append m bb.create) [ none ↦ false | some b ↦ true ]

module _ {M B : Type 0} ⦃bb : Batches M B⦄ where
  -- the records of batches, in order
  unfoldable pub delivered : List B → List M
  delivered [] = []
  delivered (b ∷ bs) = bb.records b ++ delivered bs

  -- the records that are wanted have all been sent, or a first part of them before an exception of
  -- the broker
  abbrev pub IsSent : (ℕ → Option String) → List M → Outcome (Unit {0}) × List B → Type 0
  IsSent fault wanted (ok done, sent) = delivered sent ≡ wanted
  IsSent fault wanted (raised m, sent) =
      (rest : List M) × (delivered sent ++ rest ≡ wanted) × (fault (length sent) ≡ some m)

  delivered-append :
      (sent : List B) (b : B) → delivered (sent ++ (b ∷ [])) ≡ delivered sent ++ bb.records b
  unfolding delivered
  delivered-append [] b = append-nil (bb.records b)
  delivered-append (c ∷ sent) b =
      ap (λ t. bb.records c ++ t) (delivered-append sent b)
      ∙ sym (append_assoc (bb.records c) (delivered sent) (bb.records b))

  dispatched-IsSent :
      (fault : ℕ → Option String) (b : B) (sent : List B)
      (next : List B → Outcome (Unit {0}) × List B) (wanted later : List M)
      → delivered sent ++ (bb.records b ++ later) ≡ wanted
      → IsSent fault wanted (next (sent ++ (b ∷ [])))
      → IsSent fault wanted (dispatched fault b sent next)
  unfolding dispatched
  dispatched-IsSent fault b sent next wanted later whole rest = answered (fault (length sent)) refl
    where
      answered :
          (o : Option String)
          → fault (length sent) ≡ o
          → IsSent fault wanted (dispatched fault b sent next)
      answered none e = rw (e, dispatched) rest
      answered (some m) e = rw (e, dispatched) (bb.records b ++ later, whole, e)

  filter_here :
      (m : M) (ms : List M) (o : Option B)
      → bb.append m bb.create ≡ o
      → filter (fits bb) (m ∷ ms)
        ≡ elim o [ none ↦ filter (fits bb) ms | some c ↦ m ∷ filter (fits bb) ms ]
  unfolding filter
  filter_here m ms none e = rw (e, filter, fits) refl
  filter_here m ms (some c) e = rw (e, filter, fits) refl

  -- what a new batch holds after a record that found no room
  reopened-records :
      (m : M) (ms : List M) (c : B)
      → c ≡ reopened m
      → bb.records c ++ filter (fits bb) ms ≡ filter (fits bb) (m ∷ ms)
  unfolding reopened filter
  reopened-records m ms c same = room (bb.append m bb.create) refl
    where
      room :
          (o : Option B)
          → bb.append m bb.create ≡ o
          → bb.records c ++ filter (fits bb) ms ≡ filter (fits bb) (m ∷ ms)
      room none e = rw (filter_here m ms none e, same, reopened, e, bb.records-create) refl
      room (some b) e =
          rw
            (
              filter_here m ms (some b) e,
              same,
              reopened,
              e,
              bb.records-append m bb.create b e,
              bb.records-create,
            )
            refl

  -- a record that the open batch has room for
  added-records :
      (m : M) (ms : List M) (b b' : B)
      → bb.append m b ≡ some b'
      → bb.records b' ++ filter (fits bb) ms ≡ bb.records b ++ filter (fits bb) (m ∷ ms)
  added-records m ms b b' e =
      let (c, e') = bb.append-create m b b' e in
      rw (filter_here m ms (some c) e', bb.records-append m b b' e)
        (append_assoc (bb.records b) (m ∷ []) _)

  -- one round of the loop, for the rounds after it
  fill-IsSent_step :
      (fault : ℕ → Option String) (m : M) (ms : List M) (b : B) (sent : List B)
      → ((b' : B) (sent' : List B)
          → IsSent fault
              (delivered sent' ++ (bb.records b' ++ filter (fits bb) ms))
              (fill fault ms b' sent'))
      → (o : Option B) → bb.append m b ≡ o
      → IsSent fault
          (delivered sent ++ (bb.records b ++ filter (fits bb) (m ∷ ms)))
          (fill fault (m ∷ ms) b sent)
  unfolding fill
  fill-IsSent_step fault m ms b sent later (some b') e =
      rw (e, fill)
        (subst (λ t. IsSent fault (delivered sent ++ t) (fill fault ms b' sent))
          (added-records m ms b b' e) (later b' sent))
  fill-IsSent_step fault m ms b sent later none e =
      let all = sent ++ (b ∷ []) in
      rw (e, fill)
        (dispatched-IsSent fault b sent (λ bs. fill fault ms (reopened m) bs) _
          (filter (fits bb) (m ∷ ms)) refl
          (subst (λ t. IsSent fault t (fill fault ms (reopened m) all))
            (ap (λ t. t ++ (bb.records (reopened {B = B} m) ++ filter (fits bb) ms))
                (delivered-append sent b)
              ∙ append_assoc (delivered sent) (bb.records b) _
              ∙ ap (λ t. delivered sent ++ (bb.records b ++ t))
                  (reopened-records m ms (reopened m) refl))
            (later (reopened m) all)))

  fill-IsSent :
      (fault : ℕ → Option String) (ms : List M) (b : B) (sent : List B)
      → IsSent fault
          (delivered sent ++ (bb.records b ++ filter (fits bb) ms))
          (fill fault ms b sent)
  unfolding fill filter
  fill-IsSent fault [] b sent =
      dispatched-IsSent fault b sent (λ all. (ok tt, all)) _ [] refl
        (delivered-append sent b ∙ ap (λ t. delivered sent ++ t) (sym (append-nil (bb.records b))))
  fill-IsSent fault (m ∷ ms) b sent =
      fill-IsSent_step fault m ms b sent (fill-IsSent fault ms) (bb.append m b) refl

-- What `send_batch` gives to the broker is, in order, the records of all values that an empty batch
-- has room for; a value that has none is dropped without an exception. Where the broker raises, a
-- first part of these records has been sent, and a producer that is not started sends nothing.
pub send_batch_lem :
    {V T B : Type 0} ⦃bb : Batches (Message T) B⦄ (dumps : V → T) (fault : ℕ → Option String)
    (values : List (Option String × V))
    → IsSent fault
        (filter (fits bb) (map (message dumps) values))
        (send_batch {B = B} dumps fault true values)
      × (send_batch {B = B} dumps fault false values ≡ (raised "RuntimeError", []))
unfolding send_batch delivered
send_batch_lem ⦃bb⦄ dumps fault values =
    let ms = map (message dumps) values in
    (
      subst (λ t. IsSent fault (t ++ filter (fits bb) ms) (fill fault ms bb.create []))
          bb.records-create (fill-IsSent fault ms bb.create []),
      refl,
    )
