-- ===== src/Simulator/Rate.antt =====
-- simulator/simulator/engine.py: how many events ten ticks send, and what becomes of the queue.
use real_time_distributed_si.Prelude.{
  ℕ, zero, suc, ◌+◌, ◌*◌, Bool, true, ◌≡◌, refl, ◌∙◌, List, [], ◌∷◌, arith, min, length, drop, ◌<◌,
  ◌≤◌, ◌%◌, ◌/◌, if◌then◌else◌, ltb, ap, take, ◌++◌, ◌-◌, sym,
}
use mathlib.Core.List.{append-nil, append_assoc}
use real_time_distributed_si.Simulator.{Generator, budget, taken, emit_tick}

-- the events of n ticks from one on
unfoldable pub budget_of : ℕ → ℕ → ℕ → ℕ
budget_of rate tick zero = 0
budget_of rate tick (suc n) = budget_of rate tick n + budget rate (tick + n)

remainder : (second i : ℕ) → i < 10 → (10 * second + i) % 10 ≡ i
remainder second i h = omega (arith, h)

budget_at :
    (rate second i : ℕ)
    → i < 10
    → budget rate (10 * second + i) ≡ rate / 10 + (if ltb i (rate % 10) then 1 else 0)
unfolding budget
budget_at rate second i h =
    ap (λ r. rate / 10 + (if ltb r (rate % 10) then 1 else 0)) (remainder second i h)

budget_of-eq :
    (rate second n : ℕ)
    → n ≤ 10
    → budget_of rate (10 * second) n ≡ n * (rate / 10) + min n (rate % 10)
unfolding budget_of
budget_of-eq rate second zero h = ground arith
budget_of-eq rate second (suc n) h =
    let rest = budget_of-eq rate second n (omega (arith, h)) in
    let tick = budget_at rate second n (omega (arith, h)) in grind (arith, rest, tick)

-- The ten ticks of a second are given exactly the events of the rate, whatever the rate is.
pub budget_second : (rate second : ℕ) → budget_of rate (10 * second) 10 ≡ rate
budget_second rate second = budget_of-eq rate second 10 (omega arith) ∙ ground arith

drop_nil : {A : Type 0} (n : ℕ) → drop {A = A} n [] ≡ []
unfolding drop
drop_nil zero = refl
drop_nil (suc n) = refl

take_nil : {A : Type 0} (n : ℕ) → take {A = A} n [] ≡ []
unfolding take
take_nil zero = refl
take_nil (suc n) = refl

module _ {A : Type 0} (normal_event : ℕ → A) where
  -- the normal events from the `i`-th on
  unfoldable pub normals : ℕ → ℕ → List A
  normals i zero = []
  normals i (suc n) = normal_event i ∷ normals (suc i) n

  -- what n sends from the `i`-th on are due: the queue first, then normal events
  abbrev pub due_events : ℕ → ℕ → List A → List A
  due_events i n queue = take n queue ++ normals (i + length queue) (n - length queue)

  normals-eq : {i j m n : ℕ} → i ≡ j → m ≡ n → normals i m ≡ normals j n
  normals-eq {j = j} {m = m} e f = ap (λ k. normals k m) e ∙ ap (normals j) f

  due_events_none : (i : ℕ) (queue : List A) → due_events i 0 queue ≡ []
  unfolding take normals
  due_events_none i queue =
      normals-eq {i = i + length queue} {m = 0 - length queue} {n = 0} refl (omega arith)

  due_events-nil : (i n : ℕ) → due_events i (suc n) [] ≡ normal_event i ∷ due_events (suc i) n []
  unfolding take normals
  due_events-nil i n =
      normals-eq {j = i} {n = suc n} (omega arith) (omega arith)
      ∙ ap (◌∷◌ (normal_event i)) (
          normals-eq {i = suc i} {m = n} (omega arith) (omega arith)
          ∙ ap (λ t. t ++ normals (suc i + length {A = A} []) (n - length {A = A} []))
              (sym (take_nil n)))

  due_events-cons :
      (a : A) (queue : List A) (i n : ℕ)
      → due_events i (suc n) (a ∷ queue) ≡ a ∷ due_events (suc i) n queue
  unfolding take
  due_events-cons a queue i n =
      ap (λ t. a ∷ (take n queue ++ t)) (normals-eq (omega arith) (omega arith))

  -- n events went out, those of the queue first
  pub record Emits (i n : ℕ) (queue : List A) (g g' : Generator A) : Type 0 where
    pub total : g'.sent_total ≡ g.sent_total + n
    pub attack : g'.sent_attack ≡ g.sent_attack + min n (length queue)
    pub rest : g'.queue ≡ drop n queue
    pub events : g'.sent ≡ g.sent ++ due_events i n queue

  taken-Emits :
      (queue : List A) (i n : ℕ) (g g' : Generator A)
      → Emits
          (suc i)
          n
          (taken (normal_event i) true queue g).queue
          (taken (normal_event i) true queue g)
          g'
      → Emits i (suc n) queue g g'
  unfolding drop
  taken-Emits [] i n g g' h = record {
    total = omega (arith, h.total);
    attack = ground (arith, h.attack);
    rest = h.rest ∙ drop_nil n;
    events =
        h.events
        ∙ append_assoc g.sent (normal_event i ∷ []) _
        ∙ ap (λ t. g.sent ++ t) (sym (due_events-nil i n));
  }
  taken-Emits (a ∷ queue) i n g g' h = record {
    total = omega (arith, h.total);
    attack = ground (arith, h.attack);
    rest = h.rest;
    events =
        h.events
        ∙ append_assoc g.sent (a ∷ []) _
        ∙ ap (λ t. g.sent ++ t) (sym (due_events-cons a queue i n));
  }

module _ {A : Type 0} (normal_event : ℕ → A) (sends : ℕ → Bool) where
  -- A tick whose sends all succeed sends exactly its budget: first the events of the attack queue, in
  -- their order, then normal events; it counts those of the queue as attack events, and leaves the
  -- rest of the queue in place.
  pub emit_tick-Emits :
      (i n : ℕ) (g : Generator A)
      → ((j : ℕ) → sends j ≡ true)
      → Emits normal_event i n g.queue g (emit_tick normal_event sends i n g)
  unfolding emit_tick drop
  emit_tick-Emits i zero g h = record {
    total = omega arith;
    attack = ground arith;
    rest = refl;
    events =
        sym (append-nil g.sent)
        ∙ ap (λ t. g.sent ++ t) (sym (due_events_none normal_event i g.queue));
  }
  emit_tick-Emits i (suc n) g h = rw (h i) (
      taken-Emits normal_event g.queue i n g
        (emit_tick normal_event sends (suc i) n (taken (normal_event i) true g.queue g))
        (emit_tick-Emits (suc i) n (taken (normal_event i) true g.queue g) h))
