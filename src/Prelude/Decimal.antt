-- ===== src/Prelude/Decimal.antt =====
-- `itoa` can be read back, so different numbers have different texts.
use Prim.Native.Nat.{ℕ, zero, suc, ◌+◌, ◌-◌, ◌*◌, ◌/◌, ◌%◌, ◌≤◌, ◌<◌}
use Prim.Native.Char.{code}
use Prim.Native.String.{String, ◌++◌}
use mathlib.Core.Path.{◌≡◌, sym, ap, ◌∙◌}
use mathlib.Core.Logic.{inl, inr}
use native.Mathlib.Omega.{arith}
use text.Mathlib.TextLemmas.{nil-append, cons-append}
use workshop_operator.Prelude.Tests.{ltb, Bool-cases}
use workshop_operator.Prelude.Text.{itoa, digits, digit}

-- The number that the digits of a text make, behind a number that has been read.
read_from : ℕ → String → ℕ
read_from acc String.[] = acc
read_from acc (String.◌∷◌ c s) = read_from (acc * 10 + (code c - 48)) s

read_from-append : (acc : ℕ) (s t : String) → read_from acc (s ++ t) ≡ read_from (read_from acc s) t
unfolding read_from
read_from-append acc String.[] t = rw nil-append
read_from-append acc (String.◌∷◌ c s) t =
    rw cons-append (read_from-append (acc * 10 + (code c - 48)) s t)

read_from-digit : (acc n : ℕ) → n < 10 → read_from acc (digit n) ≡ acc * 10 + n
unfolding read_from digit
read_from-digit acc zero h = omega arith
read_from-digit acc (suc zero) h = omega arith
read_from-digit acc (suc (suc zero)) h = omega arith
read_from-digit acc (suc (suc (suc zero))) h = omega arith
read_from-digit acc (suc (suc (suc (suc zero)))) h = omega arith
read_from-digit acc (suc (suc (suc (suc (suc zero))))) h = omega arith
read_from-digit acc (suc (suc (suc (suc (suc (suc zero)))))) h = omega arith
read_from-digit acc (suc (suc (suc (suc (suc (suc (suc zero))))))) h = omega arith
read_from-digit acc (suc (suc (suc (suc (suc (suc (suc (suc zero)))))))) h = omega arith
read_from-digit acc (suc (suc (suc (suc (suc (suc (suc (suc (suc zero))))))))) h = omega arith
read_from-digit acc (suc (suc (suc (suc (suc (suc (suc (suc (suc (suc n)))))))))) h =
    absurd (omega arith)

read_from-digits : (fuel n : ℕ) → n ≤ fuel → read_from 0 (digits fuel n) ≡ n
unfolding digits
read_from-digits zero n h = read_from-digit 0 n (omega arith) ∙ omega arith
read_from-digits (suc fuel) n h = elim (Bool-cases (ltb n 10)) [
  | inl t ↦ rw (t, digits) (read_from-digit 0 n (ground arith) ∙ omega arith)
  | inr f ↦
      rw (f, digits)
        (read_from-append 0 (digits fuel (n / 10)) (digit (n % 10))
          ∙ ap (λ (k : ℕ). read_from k (digit (n % 10)))
              (read_from-digits fuel (n / 10) (ground arith))
          ∙ read_from-digit (n / 10) (n % 10) (omega arith)
          ∙ omega arith)
]

pub itoa-injective : (m n : ℕ) → itoa m ≡ itoa n → m ≡ n
unfolding itoa
itoa-injective m n h =
    sym (read_from-digits m m (omega arith))
    ∙ ap (read_from 0) h
    ∙ read_from-digits n n (omega arith)
