-- ===== src/Sdk/Args.antt =====
-- The parsers of sdk/src/args.ts. A text is the list of its character codes, and an error is none.
pub mod Printed
use collateralized_agents.Base.{
  ℕ, zero, suc, ◌+◌, ◌-◌, ◌*◌, ◌^◌, Bool, true, false, not, ◌&&◌, Option, none, some, List, [], ◌∷◌,
  ◌++◌, length, ltb, leb, ◌==◌, if◌then◌else◌,
}

abbrev pub Text : Type 0
Text = List ℕ

-- `.`
abbrev pub dot : ℕ
dot = 46

-- `0`
abbrev pub zero_digit : ℕ
zero_digit = 48

-- `\d`
abbrev pub is_digit : ℕ → Bool
is_digit c = leb 48 c && leb c 57

abbrev pub are_digits : Text → Bool
are_digits [] = true
are_digits (c ∷ s) = is_digit c && are_digits s

-- `^\d+$`
unfoldable pub is_whole : Text → Bool
is_whole [] = false
is_whole (c ∷ s) = are_digits (c ∷ s)

-- What stands before the first dot, and what after it.
unfoldable pub split_dot : Text → Text × Option Text
split_dot [] = ([], none)
split_dot (c ∷ s) =
    let rest = split_dot s in if c == dot then ([], some s) else (c ∷ rest.0, rest.1)

unfoldable pub is_fraction : ℕ → Option Text → Bool
is_fraction places none = true
is_fraction places (some s) = is_whole s && leb (length s) places

-- `^\d+(\.\d{1,places})?$`
unfoldable pub is_decimal : ℕ → Text → Bool
is_decimal places s = is_whole (split_dot s).0 && is_fraction places (split_dot s).1

abbrev pub number_from : ℕ → Text → ℕ
number_from n [] = n
number_from n (c ∷ s) = number_from (n * 10 + (c - 48)) s

-- `BigInt` and `Number` on digits.
unfoldable pub number : Text → ℕ
number s = number_from 0 s

abbrev pub zeros : ℕ → Text
zeros zero = []
zeros (suc n) = zero_digit ∷ zeros n

-- `s.padEnd(n, "0")`
unfoldable pub pad_end : ℕ → Text → Text
pad_end n s = s ++ zeros (n - length s)

abbrev pub or_empty : Option Text → Text
or_empty none = []
or_empty (some s) = s

-- A decimal in units of its last place.
unfoldable pub parse_decimal : ℕ → Text → Option ℕ
parse_decimal places s =
    if is_decimal places s
    then some
        (number (split_dot s).0 * 10 ^ places + number (pad_end places (or_empty (split_dot s).1)))
    else none

-- Lamports.
unfoldable pub parse_sol : Text → Option ℕ
parse_sol s = parse_decimal 9 s

-- Basis points; exact in a double below 2^53.
unfoldable pub parse_percent_bps : Text → Option ℕ
parse_percent_bps s = parse_decimal 2 s

-- `Number.isSafeInteger`, of a whole number.
abbrev pub is_safe : ℕ → Bool
is_safe n = ltb n (2 ^ 53)

unfoldable pub parse_id : Text → Option ℕ
parse_id s = if is_whole s && is_safe (number s) then some (number s) else none

-- The two fees, or the error of the first that is wrong.
unfoldable pub runner_fees : Text → Text → Option (ℕ × ℕ)
runner_fees priority urgent = parse_id priority >>= λ p. parse_id urgent >>= λ u. some (p, u)
  where
    infixl 5 ◌>>=◌
    ◌>>=◌ : {A B : Type 0} → Option A → (A → Option B) → Option B
    none >>= f = none
    some a >>= f = f a
