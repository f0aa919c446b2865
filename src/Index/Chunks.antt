-- ===== src/Index/Chunks.antt =====
-- The loops of index.go that send a long list in chunks, one statement for each.
use go_ds_s3_walrus.Common.{
  ℕ, zero, suc, ◌≤◌, String, true, false, ◌≡◌, refl, List, [], ◌∷◌, map, length, take, drop,
  contains, arith, length-drop,
}
use go_ds_s3_walrus.Common.Result.{Exec, pure, ◌>>◌}
use go_ds_s3_walrus.Index.{Tables}
use go_ds_s3_walrus.Index.Postgres.{Pg}
use go_ds_s3_walrus.Index.Distinct.{distinct}
use go_ds_s3_walrus.Index.Atomic.{Runs, Runs-ext, Runs-weaken, Runs-bind}

module _ {A : Type 0} where
  -- `for start := 0; start < len(xs); start += size`, with fuel for the rounds.
  unfoldable pub in_chunks : ℕ → (List A → Exec Pg (Unit {0})) → ℕ → List A → Exec Pg (Unit {0})
  in_chunks size send zero xs = pure tt
  in_chunks size send (suc fuel) [] = pure tt
  in_chunks size send (suc fuel) (x ∷ xs) = do
    send (take size (x ∷ xs))
    in_chunks size send fuel (drop size (x ∷ xs))

  module _ (key : A → String) where
    -- A part of a list without duplicates is one.
    contains-take :
        (n : ℕ) (xs : List A) (k : String)
        → contains (map key xs) k ≡ false
        → contains (map key (take n xs)) k ≡ false
    contains-take zero xs k h = refl
    contains-take (suc n) [] k h = refl
    contains-take (suc n) (x ∷ xs) k h = ground (arith, contains-take n xs k)

    distinct-take :
        (n : ℕ) (xs : List A) → distinct (map key xs) ≡ true → distinct (map key (take n xs)) ≡ true
    distinct-take zero xs h = refl
    distinct-take (suc n) [] h = refl
    distinct-take (suc n) (x ∷ xs) h =
        ground (arith, distinct-take n xs, contains-take n xs (key x))

    distinct-drop :
        (n : ℕ) (xs : List A) → distinct (map key xs) ≡ true → distinct (map key (drop n xs)) ≡ true
    distinct-drop zero xs h = h
    distinct-drop (suc n) [] h = refl
    distinct-drop (suc n) (x ∷ xs) h = ground (arith, distinct-drop n xs)

    -- Sending in chunks does what `f` does with the whole list, if `f` does so with two parts.
    module _ (f : List A → ℕ → Tables → Unit {0} × Tables)
        (f-nil : (now : ℕ) (t : Tables) → f [] now t ≡ (tt, t))
        (f-take-drop : (n : ℕ) (xs : List A) (now : ℕ) (t : Tables)
          → f (drop n xs) now (f (take n xs) now t).1 ≡ f xs now t)
        (send : List A → Exec Pg (Unit {0}))
        (send-Runs : (xs : List A) → Runs (distinct (map key xs) ≡ true) (f xs) (send xs)) where
      pub pure-Runs : {D : Type 0} → Runs D (f []) (pure tt)
      pure-Runs = record {
        done = λ p now a en h. f-nil now p.tables;
        clock = λ p. refl;
        total = λ d p now t en et h. (refl, h);
      }

      pub in_chunks-Runs :
          (size fuel : ℕ) (xs : List A)
          → length xs ≤ fuel
          → Runs (distinct (map key xs) ≡ true) (f xs) (in_chunks (suc size) send fuel xs)
      unfolding in_chunks
      in_chunks-Runs size zero [] h = pure-Runs
      in_chunks-Runs size zero (x ∷ xs) h = absurd (omega arith)
      in_chunks-Runs size (suc fuel) [] h = pure-Runs
      in_chunks-Runs size (suc fuel) (x ∷ xs) h =
          let all = x ∷ xs in
          let chunk = take (suc size) all in
          let rest = drop (suc size) all in
          Runs-ext _ (f all) _ (f-take-drop (suc size) all) (
            Runs-bind (f chunk) (λ _. f rest) (send chunk)
              (λ _. in_chunks (suc size) send fuel rest)
              (Runs-weaken (f chunk) _ (distinct-take (suc size) all) (send-Runs chunk))
              (λ _.
                Runs-weaken (f rest) _ (distinct-drop (suc size) all)
                  (in_chunks-Runs size fuel rest (omega (arith, length-drop (suc size) all)))))
