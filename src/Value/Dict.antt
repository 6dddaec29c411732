-- ===== src/Value/Dict.antt =====
-- The laws of the dict operations.
use real_time_distributed_si.Prelude.{
  String, Option, none, some, false, ◌≡◌, ◌∙◌, refl, inl, inr, arith, if◌then◌else◌, str_eq, eq_iff,
  Bool-cases,
}
use real_time_distributed_si.Value.{Value, Fields, end, field, get, put, update}

module _ {R : Type 0} where
  pub get-put :
      (k j : String) (v : Value R) (d : Fields R)
      → get j (put k v d) ≡ (if str_eq k j then some v else get j d)
  unfolding get put
  get-put k j v end = refl
  get-put k j v (field i w d) = ground (arith, eq_iff k j, eq_iff i k, eq_iff i j, get-put k j v d)

  -- a dict holds each key once
  abbrev pub IsDict : Fields R → Type 0
  IsDict end = Unit
  IsDict (field k v d) = (get k d ≡ none) × IsDict d

  abbrev pub or_get : Option (Value R) → Option (Value R) → Option (Value R)
  or_get none o = o
  or_get (some v) o = some v

  -- an updated dict has the values of the update, and its own for the other keys
  pub get-update :
      (k : String) (d e : Fields R) → IsDict e → get k (update d e) ≡ or_get (get k e) (get k d)
  unfolding get update
  get-update k d end h = refl
  get-update k d (field j v e) h =
      get-update k (put j v d) e h.1 ∙ ground (arith, get-put j k v d, eq_iff j k, h.0)

  put-absent :
      (k j : String) (v : Value R) (d : Fields R)
      → str_eq k j ≡ false
      → get j d ≡ none
      → get j (put k v d) ≡ none
  put-absent k j v d ne h = get-put k j v d ∙ ground (arith, ne, h)

  pub put-IsDict : (k : String) (v : Value R) (d : Fields R) → IsDict d → IsDict (put k v d)
  unfolding put get
  put-IsDict k v end h = (refl, tt)
  put-IsDict k v (field j w d) h = elim (Bool-cases (str_eq j k)) [
    | inl same ↦ rw same h
    | inr other ↦ rw other (
      put-absent k j v d (ground (arith, eq_iff j k, eq_iff k j, other)) h.0,
      put-IsDict k v d h.1,
    )
  ]

  pub update-IsDict : (d e : Fields R) → IsDict d → IsDict (update d e)
  unfolding update
  update-IsDict d end h = h
  update-IsDict d (field k v e) h = update-IsDict (put k v d) e (put-IsDict k v d h)
