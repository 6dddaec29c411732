-- ===== src/Query/Perms.antt =====
-- What rearranging rows keeps: their number, sums over them, and which rows there are.
use real_time_distributed_si.Prelude.{ℕ, ◌≡◌, refl, ap, sym, ◌∙◌, inl, inr, List, arith, length, In}
use mathlib.Core.List.{Permᴰ}
use real_time_distributed_si.Query.Sums.{sum_of, sum_of-one}

module _ {A : Type 0} where
  pub sum_of-perm : (w : A → ℕ) {xs ys : List A} → Permᴰ xs ys → sum_of w xs ≡ sum_of w ys
  unfolding sum_of
  sum_of-perm w Permᴰ.nil = refl
  sum_of-perm w (Permᴰ.cons e p) = omega (arith, ap w e, sum_of-perm w p)
  sum_of-perm w (Permᴰ.swap e f) = omega (arith, ap w e, ap w f)
  sum_of-perm w (Permᴰ.trans p q) = sum_of-perm w p ∙ sum_of-perm w q

  pub length-perm : {xs ys : List A} → Permᴰ xs ys → length xs ≡ length ys
  length-perm {xs} {ys} p = sym (sum_of-one xs) ∙ sum_of-perm (λ x. 1) p ∙ sum_of-one ys

  pub In-perm : (a : A) {xs ys : List A} → Permᴰ xs ys → In a xs → In a ys
  In-perm a Permᴰ.nil i = i
  In-perm a (Permᴰ.cons e p) (inl q) = inl (q ∙ e)
  In-perm a (Permᴰ.cons e p) (inr i) = inr (In-perm a p i)
  In-perm a (Permᴰ.swap e f) (inl q) = inr (inl (q ∙ e))
  In-perm a (Permᴰ.swap e f) (inr (inl q)) = inl (q ∙ f)
  In-perm a (Permᴰ.swap e f) (inr (inr i)) = inr (inr i)
  In-perm a (Permᴰ.trans p q) i = In-perm a q (In-perm a p i)
