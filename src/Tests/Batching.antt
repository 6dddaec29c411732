-- ===== src/Tests/Batching.antt =====
-- The theorem on `send_batch` at a batch builder that counts sizes.
use real_time_distributed_si.Prelude.{
  ℕ, ◌+◌, ◌≡◌, refl, String, true, false, Option, none, some, List, [], ◌∷◌, ◌++◌, arith,
  if◌then◌else◌, leb, filter, map,
}
use real_time_distributed_si.Detection.{ok, raised}
use real_time_distributed_si.Producer.{Message, message, written_key, Batches, send_batch}
use real_time_distributed_si.Producer.Batching.{fits, IsSent, send_batch_lem}

abbrev sizes : List (Message ℕ) → ℕ
sizes [] = 0
sizes (m ∷ ms) = m.1 + sizes ms

abbrev put_in : Message ℕ → List (Message ℕ) → Option (List (Message ℕ))
put_in m b = if leb (m.1 + sizes b) 5 then some (b ++ (m ∷ [])) else none

put_in-append :
    (m : Message ℕ) (b b' : List (Message ℕ)) → put_in m b ≡ some b' → b' ≡ b ++ (m ∷ [])
put_in-append m b b' e = ground (arith, e)

put_in-empty :
    (m : Message ℕ) (b b' : List (Message ℕ)) → put_in m b ≡ some b' → put_in m [] ≡ some (m ∷ [])
put_in-empty m b b' e = ground (arith, e)

-- a batch holds values up to a sum of 5
instance abbrev boxes : Batches (Message ℕ) (List (Message ℕ))
boxes = record {
  create = [];
  append = put_in;
  records = λ b. b;
  records-create = refl;
  records-append = put_in-append;
  append-create = λ m b b' e. (m ∷ [], put_in-empty m b b' e);
}

abbrev values : List (Option String × ℕ)
values = (some "a", 2) ∷ (some "", 7) ∷ (none, 3) ∷ (some "b", 4) ∷ []

abbrev healthy : ℕ → Option String
healthy i = none

three_batches :
    send_batch {B = List (Message ℕ)} (λ (v : ℕ). v) healthy true values
    ≡ (ok tt, ((some "a", 2) ∷ []) ∷ ((none, 3) ∷ []) ∷ ((some "b", 4) ∷ []) ∷ [])
unfolding send_batch message written_key
three_batches = refl

send_batch_lem_example :
    IsSent healthy
      (filter (fits boxes) (map (message (λ (v : ℕ). v)) values))
      (send_batch {B = List (Message ℕ)} (λ (v : ℕ). v) healthy true values)
    × (send_batch {B = List (Message ℕ)} (λ (v : ℕ). v) healthy false values
        ≡ (raised "RuntimeError", []))
send_batch_lem_example = send_batch_lem (λ v. v) healthy values
