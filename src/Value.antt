-- ===== src/Value.antt =====
-- The values of the JSON documents that the program reads and writes, with Python's dict operations
-- on their objects. A dict is the list of its items in insertion order.
pub mod Dict
pub mod Convert
use real_time_distributed_si.Prelude.{
  ℕ, ℤ, String, Bool, true, false, Option, none, some, List, [], ◌∷◌, if◌then◌else◌, str_eq,
}

mutual
  pub data Value (R : Type 0) : Type 0 where
    null : Value R
    bool : Bool → Value R
    int : ℤ → Value R
    float : R → Value R
    text : String → Value R
    list : Values R → Value R
    dict : Fields R → Value R

  pub data Values (R : Type 0) : Type 0 where
    nil : Values R
    cons : Value R → Values R → Values R

  pub data Fields (R : Type 0) : Type 0 where
    end : Fields R
    field : String → Value R → Fields R → Fields R

module _ {R : Type 0} where
  -- `d.get(k)`
  unfoldable pub get : String → Fields R → Option (Value R)
  get k end = none
  get k (field j v d) = if str_eq j k then some v else get k d

  -- `d[k] = v`
  unfoldable pub put : String → Value R → Fields R → Fields R
  put k v end = field k v end
  put k v (field j w d) = if str_eq j k then field j v d else field j w (put k v d)

  -- `d.update(e)`
  unfoldable pub update : Fields R → Fields R → Fields R
  update d end = d
  update d (field k v e) = update (put k v d) e

  -- `d.setdefault(k, v)`
  unfoldable pub setdefault : String → Value R → Fields R → Fields R
  unfolding put get
  setdefault k v d = elim (get k d) [ some w ↦ d | none ↦ put k v d ]

  unfoldable pub size : Fields R → ℕ
  size end = 0
  size (field k v d) = Prim.Native.Nat.suc (size d)

  -- a list of texts as a JSON array
  unfoldable pub texts : List String → Value R
  texts [] = list nil
  texts (s ∷ ss) = prepend (text s) (texts ss)
    where
      prepend : Value R → Value R → Value R
      prepend v (list vs) = list (cons v vs)
      prepend v w = w
