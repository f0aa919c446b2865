-- ===== src/Common/Decimal.antt =====
-- Decimal texts of numbers: `strconv.Itoa` on a natural number.
use Prim.Native.Char.{Char, code}
use go_ds_s3_walrus.Common.{
  ℕ, zero, suc, ◌+◌, ◌-◌, ◌*◌, ◌/◌, ◌%◌, ◌<◌, ◌≤◌, String, ◌≡◌, refl, ap, sym, ◌∙◌, ltb,
  if◌then◌else◌, arith, inl, inr, Bool-cases,
}

-- The character of a text at a position, and a last one past its end.
char_at : ℕ → String → Char
char_at n String.[] = "9"
char_at zero (String.◌∷◌ c s) = c
char_at (suc n) (String.◌∷◌ c s) = char_at n s

digit : ℕ → Char
unfolding char_at
digit d = char_at d "012345678"

-- The last digit first, before the digits that are already there; a number has at most as many
-- digits as it is large, or one.
itoa_loop : ℕ → ℕ → String → String
unfolding digit
itoa_loop zero n acc = acc
itoa_loop (suc fuel) n acc =
    let rest = itoa_loop fuel (n / 10) (String.◌∷◌ (digit (n % 10)) acc) in
    if ltb n 10 then String.◌∷◌ (digit n) acc else rest

unfoldable pub itoa : ℕ → String
unfolding itoa_loop
itoa n = itoa_loop (n + 1) n ""

itoa-665 : itoa 665 ≡ "665"
unfolding itoa
itoa-665 = refl

-- The number that a text stands for, after the digits of another.
value_from : ℕ → String → ℕ
value_from n String.[] = n
value_from n (String.◌∷◌ c s) = value_from (n * 10 + (code c - 48)) s

digit-value : (d : ℕ) → d < 10 → code (digit d) - 48 ≡ d
unfolding digit char_at
digit-value zero h = refl
digit-value (suc zero) h = refl
digit-value (suc (suc zero)) h = refl
digit-value (suc (suc (suc zero))) h = refl
digit-value (suc (suc (suc (suc zero)))) h = refl
digit-value (suc (suc (suc (suc (suc zero))))) h = refl
digit-value (suc (suc (suc (suc (suc (suc zero)))))) h = refl
digit-value (suc (suc (suc (suc (suc (suc (suc zero))))))) h = refl
digit-value (suc (suc (suc (suc (suc (suc (suc (suc zero)))))))) h = refl
digit-value (suc (suc (suc (suc (suc (suc (suc (suc (suc zero))))))))) h = refl
digit-value (suc (suc (suc (suc (suc (suc (suc (suc (suc (suc d)))))))))) h =
    absurd (omega (arith, h))

itoa_loop-value_from :
    (fuel n : ℕ) (acc : String) → n < fuel → value_from 0 (itoa_loop fuel n acc) ≡ value_from n acc
unfolding itoa_loop value_from
itoa_loop-value_from zero n acc h = absurd (omega (arith, h))
itoa_loop-value_from (suc fuel) n acc h = elim (Bool-cases (ltb n 10)) [
  | inl last ↦
      let small : n < 10 = ground (arith, last) in
      rw last (ap (λ (m : ℕ). value_from m acc) (omega (arith, digit-value n small)))
  | inr more ↦
      let large : 10 ≤ n = ground (arith, more) in
      rw more (
        itoa_loop-value_from fuel (n / 10) (String.◌∷◌ (digit (n % 10)) acc)
          (omega (arith, large, h))
        ∙ ap (λ (m : ℕ). value_from m acc) (omega (arith, digit-value (n % 10) (omega arith))))
]

-- Different numbers have different texts.
pub itoa-injective : (m n : ℕ) → itoa m ≡ itoa n → m ≡ n
unfolding itoa value_from
itoa-injective m n h =
    sym (itoa_loop-value_from (m + 1) m "" (omega arith))
    ∙ ap (value_from 0) h
    ∙ itoa_loop-value_from (n + 1) n "" (omega arith)
