-- ===== src/Ml/Buffer.antt =====
-- backend/app/detection/ml.py: the bound of the buffer, and when the model is trained.
use real_time_distributed_si.Prelude.{
  ℕ, ◌+◌, ◌-◌, ◌%◌, ◌/◌, ◌≤◌, String, true, false, ◌≡◌, refl, ap, ◌∙◌, Option, none, some, List, [],
  ◌∷◌, ◌++◌, arith, if◌then◌else◌, ltb, ◌==◌, max, take, drop, length, length-append, Bool-cases,
  inl, inr,
}
use real_time_distributed_si.Floats.{Floats}
use real_time_distributed_si.Ml.{
  Forest, Ml, pushed, vectorize, trained, observe, observe_full, due, infer,
}

module _ {A : Type 0} where
  length-drop_one : (xs : List A) → length (drop 1 xs) ≡ length xs - 1
  unfolding drop
  length-drop_one [] = refl
  length-drop_one (x ∷ xs) = omega arith

module _ {R : Type 0} ⦃F : Floats R⦄ where
  length-pushed :
      (size : ℕ) (v : List R) (buffer : List (List R))
      → length buffer ≤ size
      → length (pushed size v buffer)
        ≡ (if ltb (length buffer) size then length buffer + 1 else size)
  unfolding pushed
  length-pushed size v buffer h =
      ground (arith, h, length-append buffer (v ∷ []), length-drop_one (buffer ++ v ∷ []))

module _ {R M : Type 0} ⦃F : Floats R⦄ (forest : Forest R M) where
  infer-buffer :
      (feats : List (String × R)) (v : List R) (ml : Ml R M) (o : Option M)
      → (infer forest feats v ml o).1.buffer ≡ ml.buffer
  infer-buffer feats v ml none = refl
  infer-buffer feats v ml (some model) = refl

  infer-model :
      (feats : List (String × R)) (v : List R) (ml : Ml R M) (o : Option M) (model : M)
      → o ≡ some model
      → (infer forest feats v ml o).1.model ≡ some model
  infer-model feats v ml none model h = absurd (ground (arith, h))
  infer-model feats v ml (some m) model h = h

  observe_full-buffer :
      (feats : List (String × R)) (v : List R) (ml : Ml R M)
      → (observe_full forest feats v ml).1.buffer ≡ ml.buffer
  unfolding observe_full
  observe_full-buffer feats v ml =
      elim (Bool-cases (ltb (length ml.buffer) (max 60 (ml.buffer_size / 6)))) [
        | inl few ↦ rw few refl
        | inr enough ↦ rw enough (infer-buffer feats v ml (trained forest ml))
      ]

  -- An observation of a disabled layer reports nothing and changes nothing. An enabled layer never holds
  -- more vectors than its size, and holds one more after each observation until it is full.
  pub observe-length :
      (feats : List (String × R)) (ml : Ml R M)
      → length ml.buffer ≤ ml.buffer_size
      → (ml.enabled ≡ false → observe forest feats ml ≡ (none, ml))
        × (ml.enabled ≡ true
            → length (observe forest feats ml).1.buffer ≡ (
                if ltb (length ml.buffer) ml.buffer_size
                then length ml.buffer + 1
                else ml.buffer_size))
  unfolding observe
  observe-length feats ml h = (
    λ off. rw off refl,
    λ on. rw on (
        ap length (observe_full-buffer feats (vectorize feats) _)
        ∙ length-pushed ml.buffer_size (vectorize feats) ml.buffer h),
  )

  few :
      (ml : Ml R M)
      → length ml.buffer ≡ ml.buffer_size
      → 60 ≤ ml.buffer_size
      → ltb (length ml.buffer) (max 60 (ml.buffer_size / 6)) ≡ false
  few ml full enough = ground (arith, full, enough)

  is_due : (o : Option M) (n : ℕ) → n % 30 == 0 ≡ true → due forest o n ≡ true
  is_due none n h = refl
  is_due (some m) n h = h

  now_due :
      (ml : Ml R M) (model : M)
      → length ml.buffer ≡ ml.buffer_size
      → ml.buffer_size % 30 == 0 ≡ true
      → forest.fit (take (ml.buffer_size - 1) ml.buffer) ≡ some model
      → trained forest ml ≡ some model
  unfolding trained
  now_due ml model full thirty fit = rw (full, is_due ml.model ml.buffer_size thirty) fit

  trained_full :
      (feats : List (String × R)) (v : List R) (ml : Ml R M) (model : M)
      → length ml.buffer ≡ ml.buffer_size
      → ml.buffer_size % 30 == 0 ≡ true
      → 60 ≤ ml.buffer_size
      → forest.fit (take (ml.buffer_size - 1) ml.buffer) ≡ some model
      → (observe_full forest feats v ml).1.model ≡ some model
  unfolding observe_full
  trained_full feats v ml model full thirty enough fit =
      rw (few ml full enough)
        (infer-model feats v ml (trained forest ml) model (now_due ml model full thirty fit))

  -- Once the buffer of an enabled detector is full, and its size is at least 60 and a multiple of 30, as
  -- that of the default 720 is, every observation trains the model anew on all vectors but the last,
  -- provided that the fit on these succeeds.
  pub full_retrains :
      (feats : List (String × R)) (ml : Ml R M) (model : M)
      → ml.enabled ≡ true
      → length ml.buffer ≡ ml.buffer_size
      → ml.buffer_size % 30 == 0 ≡ true
      → 60 ≤ ml.buffer_size
      → forest.fit (take (ml.buffer_size - 1) (pushed ml.buffer_size (vectorize feats) ml.buffer))
        ≡ some model
      → (observe forest feats ml).1.model ≡ some model
  unfolding observe
  full_retrains feats ml model on full thirty enough fit =
      let full_ml = record ml { buffer = pushed ml.buffer_size (vectorize feats) ml.buffer } in
      ap
        (λ b.
          (if b then observe_full forest feats (vectorize feats) full_ml else (none, ml)).1.model)
        on
      ∙ trained_full feats (vectorize feats) full_ml model
          (length-pushed ml.buffer_size (vectorize feats) ml.buffer (omega (arith, full))
            ∙ ground (arith, full))
          thirty enough fit
