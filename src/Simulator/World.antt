-- ===== src/Simulator/World.antt =====
-- What the generators of simulator/simulator/ draw from outside: the functions of Python's `random`,
-- random UUIDs, the clock and `hash`, as operations on a state that each draw moves on.
use real_time_distributed_si.Prelude.{
  ℕ, zero, suc, ◌-◌, ◌≤◌, String, Bool, List, [], ◌∷◌, length, map,
}

pub record World (G : Type 0) : Type 0 where
  pub randint : ℕ → ℕ → G → ℕ × G
  -- `random() > n / 10^k`, and `random() < n / 10^k`
  pub random_gt : (n k : ℕ) → G → Bool × G
  pub random_lt : (n k : ℕ) → G → Bool × G
  -- the places that `sample` takes of a population of that size
  pub sample_places : (size k : ℕ) → G → List ℕ × G
  -- the place that `choices` takes by its weights
  pub choices_place : List ℕ → G → ℕ × G
  pub uuid4 : G → String × G
  -- `datetime.now(UTC).isoformat()`, with Z for the offset
  pub now_iso : G → String × G
  -- `hash(s)`, as `%` sees it
  pub hash_mod : String → ℕ → ℕ
  pub randint-ge : (a b : ℕ) (g : G) → a ≤ b → a ≤ (randint a b g).0
  pub randint-le : (a b : ℕ) (g : G) → a ≤ b → (randint a b g).0 ≤ b

-- `uniform(a, b)`
pub record Reals (R G : Type 0) : Type 0 where
  pub uniform : R → R → G → R × G

-- a computation that draws
abbrev pub Draws : Type 0 → Type 0 → Type 0
Draws G A = G → A × G

infixl 5 ◌>>=◌ ◌>>◌
abbrev pub ◌>>=◌ : {G A B : Type 0} → Draws G A → (A → Draws G B) → Draws G B
(m >>= f) g = let (a, g') = m g in f a g'

abbrev pub ◌>>◌ : {G A B : Type 0} → Draws G A → Draws G B → Draws G B
m >> n = m >>= λ a. n

abbrev pub ret : {G A : Type 0} → A → Draws G A
ret a g = (a, g)

-- `xs[i]` for a place in range
unfoldable pub nth : {A : Type 0} → A → List A → ℕ → A
nth a [] i = a
nth a (x ∷ xs) zero = x
nth a (x ∷ xs) (suc i) = nth a xs i

module _ {G : Type 0} ⦃w : World G⦄ {A : Type 0} where
  -- `choice(xs)` of a list that has elements
  unfoldable pub choice : A → List A → Draws G A
  unfolding nth
  choice a xs = do i ← w.randint 0 (length xs - 1); ret (nth a xs i)

  -- `sample(xs, k=k)`
  unfoldable pub sample : A → List A → ℕ → Draws G (List A)
  unfolding nth
  sample a xs k = do places ← w.sample_places (length xs) k; ret (map (nth a xs) places)

  -- `choices(xs, weights=...)[0]`
  unfoldable pub weighted : A → List A → List ℕ → Draws G A
  unfolding nth
  weighted a xs weights = do i ← w.choices_place weights; ret (nth a xs i)
