-- ===== src/Nats/Bytes.antt =====
-- The eight bytes of packages/nats/src/long-utils.ts.
use mathlib.Core.List.{append_assoc, append-nil}
use Prim.Native.Nat.{◌^◌}
use tslock.Prelude.{
  ℕ, zero, suc, ◌+◌, ◌*◌, ◌/◌, ◌%◌, ◌<◌, ◌≡◌, refl, sym, subst, ap, ◌∙◌, arith, if◌then◌else◌, List,
  [], ◌∷◌, ◌++◌, ok, throw, true, Bool-cases, inl, inr, ltb, number_too_large, and_then,
}
use tslock.Prelude.Int.{pos}
use tslock.Nats.{digits, read_digits, long_to_bytes, bytes_to_long, signed}

-- 256 to a power.
power : ℕ → ℕ
power zero = 1
power (suc k) = 256 * power k

read_digits-digits :
    (k j m n : ℕ) (rest : List ℕ)
    → m ≡ k + j
    → n < power k
    → read_digits m 0 (digits k n ++ rest) ≡ read_digits j n rest
unfolding digits power read_digits
read_digits-digits zero j m n rest e h =
    ap (λ i. read_digits i 0 rest) {x = m} {y = j} (omega (arith, e))
    ∙ ap (λ i. read_digits j i rest) {x = 0} {y = n} (omega (arith, h))
read_digits-digits (suc k) j m n rest e h =
    ap (read_digits m 0) (append_assoc (digits k (n / 256)) (n % 256 ∷ []) rest)
    ∙ (read_digits-digits k (suc j) m (n / 256) (n % 256 ∷ rest) (omega (arith, e))
          (omega (arith, h))
        ∙ ap (λ i. read_digits j i rest) {x = (n / 256) * 256 + n % 256} {y = n} (omega arith))

power_eight : power 8 ≡ 2 ^ 64
unfolding power
power_eight = refl

eight : (n : ℕ) → n < power 8 → read_digits 8 0 (digits 8 n) ≡ ok n
unfolding read_digits
eight n h =
    ap (read_digits 8 0) (sym (append-nil (digits 8 n)))
    ∙ read_digits-digits 8 0 8 n [] (omega arith) h

-- What is written is read back: a number below 2 ^ 63 as itself; and a number from there on is not
-- written at all.
pub bytes_to_long-long_to_bytes :
    (n : ℕ)
    → and_then (long_to_bytes n) bytes_to_long
      ≡ (if ltb n (2 ^ 63) then ok (pos n) else throw number_too_large)
unfolding long_to_bytes bytes_to_long
bytes_to_long-long_to_bytes n = elim (Bool-cases (ltb n (2 ^ 63))) [
  | inr large ↦ rw large refl
  | inl small ↦
      rw small (ap (λ r. and_then r λ m. ok (signed m)) (eight n (below n small)) ∙ rw small refl)
]
  where
    below : (n : ℕ) → ltb n (2 ^ 63) ≡ true → n < power 8
    below n h = subst (λ p. n < p) (sym power_eight) (ground arith)
