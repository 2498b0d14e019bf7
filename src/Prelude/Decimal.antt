-- ===== src/Prelude/Decimal.antt =====
-- Decimal numerals, as Python's format of an integer writes them.
use Prim.Native.Nat.{ℕ, zero, suc, ◌+◌, ◌*◌, ◌-◌, ◌/◌, ◌%◌, ◌≤◌, ◌<◌}
use Prim.Native.String.{String, ◌++◌}
use Prim.Native.Char.{code}
use mathlib.Core.Path.{◌≡◌, sym, ap, ◌∙◌}
use native.Mathlib.Omega.{arith}
use text.Mathlib.TextLemmas.{nil-append, cons-append}
use mathlib.Core.Bool.{Bool, true, false}
use agent_advisor.Prelude.Text.{all_codes, all_codes-append}
use agent_advisor.Prelude.Tests.{ltb, ◌==◌, if◌then◌else◌}

-- The numeral of a digit.
digit : ℕ → String
digit n =
    if n == 0
    then "0"
    else if n == 1
    then "1"
    else if n == 2
    then "2"
    else if n == 3
    then "3"
    else if n == 4
    then "4"
    else if n == 5
    then "5"
    else if n == 6
    then "6"
    else if n == 7
    then "7"
    else if n == 8
    then "8"
    else "9"

-- The fuel is a number of digits that is enough.
numeral_within : ℕ → ℕ → String
unfolding digit
numeral_within zero n = digit n
numeral_within (suc fuel) n =
    let front = numeral_within fuel (n / 10) in
    if ltb n 10 then digit n else front ++ digit (n % 10)

-- str(n)
unfoldable pub numeral : ℕ → String
unfolding numeral_within
numeral n = numeral_within n n

-- f"{n:03d}"
unfoldable pub padded : ℕ → String
unfolding numeral
padded n = if ltb n 10 then "00" ++ numeral n else if ltb n 100 then "0" ++ numeral n else numeral n

-- A test on codes that digits pass.
module _ (p : ℕ → Bool) (passes : (c : ℕ) → 48 ≤ c → c ≤ 57 → p c ≡ true) where
  either :
      (b : Bool) (s t : String)
      → all_codes p s ≡ true
      → all_codes p t ≡ true
      → all_codes p (if b then s else t) ≡ true
  either true s t h k = h
  either false s t h k = k

  all_codes-digit : (n : ℕ) → all_codes p (digit n) ≡ true
  unfolding digit all_codes
  all_codes-digit n =
      either (n == 0) "0" _ (ground (arith, passes 48 (omega arith) (omega arith))) (
        either (n == 1) "1" _ (ground (arith, passes 49 (omega arith) (omega arith))) (
          either (n == 2) "2" _ (ground (arith, passes 50 (omega arith) (omega arith))) (
            either (n == 3) "3" _ (ground (arith, passes 51 (omega arith) (omega arith))) (
              either (n == 4) "4" _ (ground (arith, passes 52 (omega arith) (omega arith))) (
                either (n == 5) "5" _ (ground (arith, passes 53 (omega arith) (omega arith))) (
                  either (n == 6) "6" _ (ground (arith, passes 54 (omega arith) (omega arith))) (
                    either (n == 7) "7" _ (ground (arith, passes 55 (omega arith) (omega arith))) (
                      either (n == 8) "8" _ (ground (arith, passes 56 (omega arith) (omega arith)))
                        (ground (arith, passes 57 (omega arith) (omega arith)))))))))))

  all_codes-numeral_within : (fuel n : ℕ) → all_codes p (numeral_within fuel n) ≡ true
  unfolding numeral_within
  all_codes-numeral_within zero n = all_codes-digit n
  all_codes-numeral_within (suc fuel) n = ground (
    arith,
    all_codes-digit n,
    all_codes-digit (n % 10),
    all_codes-numeral_within fuel (n / 10),
    all_codes-append p (numeral_within fuel (n / 10)) (digit (n % 10)),
  )

  pub all_codes-padded : (n : ℕ) → all_codes p (padded n) ≡ true
  unfolding padded numeral all_codes
  all_codes-padded n = ground (
    arith,
    all_codes-numeral_within n n,
    all_codes-append p "00" (numeral_within n n),
    all_codes-append p "0" (numeral_within n n),
    passes 48 (omega arith) (omega arith),
  )

-- The number that a numeral stands for, after digits that stand for `n`.
numeral_value : ℕ → String → ℕ
numeral_value n String.[] = n
numeral_value n (String.◌∷◌ c s) = numeral_value (n * 10 + (code c - 48)) s

numeral_value-append :
    (n : ℕ) (s t : String) → numeral_value n (s ++ t) ≡ numeral_value (numeral_value n s) t
unfolding numeral_value
numeral_value-append n String.[] t = ap (numeral_value n) (nil-append t)
numeral_value-append n (String.◌∷◌ c s) t =
    ap (numeral_value n) (cons-append c s t) ∙ numeral_value-append (n * 10 + (code c - 48)) s t

numeral_value-digit : (n d : ℕ) → d < 10 → numeral_value n (digit d) ≡ n * 10 + d
unfolding numeral_value digit
numeral_value-digit n zero h = omega arith
numeral_value-digit n (suc zero) h = omega arith
numeral_value-digit n (suc (suc zero)) h = omega arith
numeral_value-digit n (suc (suc (suc zero))) h = omega arith
numeral_value-digit n (suc (suc (suc (suc zero)))) h = omega arith
numeral_value-digit n (suc (suc (suc (suc (suc zero))))) h = omega arith
numeral_value-digit n (suc (suc (suc (suc (suc (suc zero)))))) h = omega arith
numeral_value-digit n (suc (suc (suc (suc (suc (suc (suc zero))))))) h = omega arith
numeral_value-digit n (suc (suc (suc (suc (suc (suc (suc (suc zero)))))))) h = omega arith
numeral_value-digit n (suc (suc (suc (suc (suc (suc (suc (suc (suc zero))))))))) h = omega arith
numeral_value-digit n (suc (suc (suc (suc (suc (suc (suc (suc (suc (suc d)))))))))) h =
    absurd (omega arith)

numeral_value-numeral_within : (fuel n : ℕ) → n ≤ fuel → numeral_value 0 (numeral_within fuel n) ≡ n
unfolding numeral_within
numeral_value-numeral_within zero n h = ground (arith, numeral_value-digit 0 n)
numeral_value-numeral_within (suc fuel) n h = ground (
  arith,
  numeral_value-digit 0 n,
  numeral_value-digit (n / 10) (n % 10),
  numeral_value-append 0 (numeral_within fuel (n / 10)) (digit (n % 10)),
  numeral_value-numeral_within fuel (n / 10),
)

numeral_value-padded : (n : ℕ) → numeral_value 0 (padded n) ≡ n
unfolding padded numeral numeral_value
numeral_value-padded n = ground (
  arith,
  numeral_value-numeral_within n n,
  numeral_value-append 0 "00" (numeral_within n n),
  numeral_value-append 0 "0" (numeral_within n n),
)

pub numeral_inj : (m n : ℕ) → numeral m ≡ numeral n → m ≡ n
unfolding numeral
numeral_inj m n e =
    sym (numeral_value-numeral_within m m (omega arith))
    ∙ ap (numeral_value 0) e
    ∙ numeral_value-numeral_within n n (omega arith)

pub padded_inj : (m n : ℕ) → padded m ≡ padded n → m ≡ n
padded_inj m n e = sym (numeral_value-padded m) ∙ ap (numeral_value 0) e ∙ numeral_value-padded n
