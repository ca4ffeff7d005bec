-- ===== src/Sdk/Args/Printed.antt =====
-- `parseSol` of sdk/src/args.ts against an amount printed with nine decimals.
use collateralized_agents.Base.{
  ℕ, zero, suc, ◌+◌, ◌-◌, ◌*◌, ◌/◌, ◌%◌, ◌≤◌, ◌<◌, Bool, true, false, ◌&&◌, ◌≡◌, refl, ap, ◌∙◌,
  Option, some, [], ◌∷◌, ◌++◌, length, ltb, ltb→lt, ◌==◌, if◌then◌else◌, if_ind, arith,
}
use collateralized_agents.Sdk.Args.{
  Text, dot, is_digit, are_digits, is_whole, split_dot, is_fraction, is_decimal, number_from,
  number, pad_end, parse_decimal, parse_sol,
}

-- The digit of a number below ten.
abbrev pub digit : ℕ → ℕ
digit n = 48 + n

-- The last `k` digits of a number.
abbrev pub last_digits : ℕ → ℕ → Text
last_digits zero n = []
last_digits (suc k) n = last_digits k (n / 10) ++ (digit (n % 10) ∷ [])

-- A number without its last `k` digits.
abbrev pub without_last : ℕ → ℕ → ℕ
without_last zero n = n
without_last (suc k) n = without_last k (n / 10)

-- The digits of a number, on fuel; it is enough when it is no less than the number.
abbrev pub digits_on : ℕ → ℕ → Text
digits_on zero n = digit n ∷ []
digits_on (suc fuel) n =
    let rest = digits_on fuel (n / 10) in
    if ltb n 10 then digit n ∷ [] else rest ++ (digit (n % 10) ∷ [])

-- An amount of lamports as SOL with nine decimals.
abbrev pub print_sol : ℕ → Text
print_sol n = digits_on (without_last 9 n) (without_last 9 n) ++ (dot ∷ last_digits 9 n)

number_from-append :
    (s : Text) (c n : ℕ) → number_from n (s ++ (c ∷ [])) ≡ number_from n s * 10 + (c - 48)
number_from-append [] c n = refl
number_from-append (d ∷ s) c n = number_from-append s c (n * 10 + (d - 48))

abbrev power : ℕ → ℕ
power zero = 1
power (suc k) = power k * 10

last_digits_number : (k n : ℕ) → without_last k n * power k + number_from 0 (last_digits k n) ≡ n
last_digits_number zero n = omega arith
last_digits_number (suc k) n =
    carry (without_last k (n / 10)) (power k) (number_from 0 (last_digits k (n / 10))) _ n
      (last_digits_number k (n / 10))
      (number_from-append (last_digits k (n / 10)) (digit (n % 10)) 0)
  where
    carry :
        (q p x y n : ℕ)
        → q * p + x ≡ n / 10
        → y ≡ x * 10 + (48 + n % 10 - 48)
        → q * (p * 10) + y ≡ n
    carry q p x y n h k = grind (arith, h, k)

digits_on_number : (fuel n : ℕ) → n ≤ fuel → number_from 0 (digits_on fuel n) ≡ n
digits_on_number zero n h = omega (arith, h)
digits_on_number (suc fuel) n h =
    if_ind (λ s. number_from 0 s ≡ n) (ltb n 10) _ _ (λ e. omega arith)
      (λ e.
        number_from-append (digits_on fuel (n / 10)) (digit (n % 10)) 0
        ∙ omega (arith, digits_on_number fuel (n / 10) (omega (arith, h))))

are_digits-append :
    (s : Text) (c : ℕ) → are_digits s ≡ true → is_digit c ≡ true → are_digits (s ++ (c ∷ [])) ≡ true
are_digits-append [] c h k = ground (arith, k)
are_digits-append (d ∷ s) c h k = ground (arith, are_digits-append s c)

digit_lem : (n : ℕ) → n < 10 → is_digit (digit n) ≡ true
digit_lem n h = ground arith

last_digits_are : (k n : ℕ) → are_digits (last_digits k n) ≡ true
last_digits_are zero n = refl
last_digits_are (suc k) n =
    are_digits-append (last_digits k (n / 10)) (digit (n % 10)) (last_digits_are k (n / 10))
      (digit_lem (n % 10) (omega arith))

digits_on_are : (fuel n : ℕ) → n ≤ fuel → are_digits (digits_on fuel n) ≡ true
digits_on_are zero n h = ground (arith, digit_lem n (omega (arith, h)))
digits_on_are (suc fuel) n h =
    if_ind (λ s. are_digits s ≡ true) (ltb n 10) _ _
      (λ e. ground (arith, digit_lem n (ltb→lt n 10 e)))
      (λ e.
        are_digits-append (digits_on fuel (n / 10)) (digit (n % 10))
          (digits_on_are fuel (n / 10) (omega (arith, h))) (digit_lem (n % 10) (omega arith)))

and_parts : (a b : Bool) → (a && b) ≡ true → (a ≡ true) × (b ≡ true)
and_parts true b h = (refl, h)
and_parts false b h = cc

not_dot : (c : ℕ) → is_digit c ≡ true → (c == dot) ≡ true → ⊥
not_dot c h e = ground arith

split_dot_digits : (s t : Text) → are_digits s ≡ true → split_dot (s ++ (dot ∷ t)) ≡ (s, some t)
unfolding split_dot
split_dot_digits [] t h = refl
split_dot_digits (c ∷ s) t h =
    if_ind (λ x. x ≡ (c ∷ s, some t)) (c == dot) _ _
      (λ e. absurd (not_dot c (and_parts (is_digit c) (are_digits s) h).0 e))
      (λ e.
        ap (λ (x : Text × Option Text). (c ∷ x.0, x.1))
          (split_dot_digits s t (and_parts (is_digit c) (are_digits s) h).1))

is_whole_append : (s : Text) (c : ℕ) → is_whole (s ++ (c ∷ [])) ≡ are_digits (s ++ (c ∷ []))
unfolding is_whole
is_whole_append [] c = refl
is_whole_append (d ∷ s) c = refl

digits_on_whole : (fuel n : ℕ) → n ≤ fuel → is_whole (digits_on fuel n) ≡ true
unfolding is_whole
digits_on_whole zero n h = digits_on_are zero n h
digits_on_whole (suc fuel) n h =
    if_ind (λ s. are_digits s ≡ true → is_whole s ≡ true) (ltb n 10) _ _ (λ e k. k)
      (λ e k. is_whole_append (digits_on fuel (n / 10)) (digit (n % 10)) ∙ k)
      (digits_on_are (suc fuel) n h)

-- What is read of digits, a dot and nine digits.
parse_sol_of :
    (w f : Text)
    → is_whole w ≡ true
    → are_digits w ≡ true
    → is_whole f ≡ true
    → length f ≡ 9
    → parse_sol (w ++ (dot ∷ f)) ≡ some (number w * 1_000_000_000 + number (pad_end 9 f))
unfolding parse_sol parse_decimal is_decimal is_fraction
parse_sol_of w f a b c d = rw (split_dot_digits w f b, a, c, d)

-- Every amount of lamports, printed as SOL with nine decimals, is read back as it was.
pub parse_sol_printed : (n : ℕ) → parse_sol (print_sol n) ≡ some n
unfolding pad_end number is_whole
parse_sol_printed n =
    parse_sol_of (digits_on (without_last 9 n) (without_last 9 n)) (last_digits 9 n)
      (digits_on_whole (without_last 9 n) (without_last 9 n) (omega arith))
      (digits_on_are (without_last 9 n) (without_last 9 n) (omega arith)) (last_digits_are 9 n) refl
    ∙ ap some (
        omega (
          arith,
          digits_on_number (without_last 9 n) (without_last 9 n) (omega arith),
          last_digits_number 9 n,
        ))
