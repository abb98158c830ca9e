-- ===== src/Xfer/Bytes.antt =====
-- Memory as bytes: how a scalar of n bytes is stored and read back (little endian).
use native.Mathlib.Nat.{pow-suc}
use mpio.Prelude.{
  ℕ, zero, suc, ◌+◌, ◌*◌, ◌/◌, ◌%◌, ◌^◌, ◌<◌, ◌≡◌, refl, ap, List, [], ◌∷◌, ◌++◌, Option, none,
  some, arith, length, ◌>>=◌,
}

unfoldable pub put : ℕ → ℕ → List ℕ
put zero x = []
put (suc n) x = (x % 256) ∷ put n (x / 256)

-- `none`: the read passes the end of the memory.
unfoldable pub get : ℕ → List ℕ → Option (ℕ × List ℕ)
get zero bs = some (0, bs)
get (suc n) [] = none
get (suc n) (b ∷ bs) = get n bs >>= λ (x, r). some (b + 256 * x, r)

pub length-put : (n x : ℕ) → length (put n x) ≡ n
unfolding put
length-put zero x = refl
length-put (suc n) x = ap suc (length-put n (x / 256))

-- What is stored is read back, and the read leaves what follows.
pub get-put : (n x : ℕ) (rest : List ℕ) → x < 256 ^ n → get n (put n x ++ rest) ≡ some (x, rest)
unfolding get put
get-put zero x rest h = ground arith
get-put (suc n) x rest h =
    rw (get-put n (x / 256) rest (omega (arith, h, pow-suc 256 n)))
      (ap (λ k. some (k, rest)) (omega arith))
