-- ===== src/Base/Text.antt =====
-- Bytes: a `char` array is a list of numbers, and a C string the list of its bytes before the NUL.
use Prim.Native.Nat.{ℕ, zero, suc, ◌<◌}
use Prim.Native.Char.{code}
use Prim.Native.String.{String}
use mathlib.Core.Bool.{Bool, true, ◌&&◌}
use mathlib.Core.Path.{◌≡◌}
use mathlib.Core.List.{List, [], ◌∷◌, ◌++◌}
use native.Mathlib.Omega.{arith}

abbrev pub Bytes : Type 0
Bytes = List ℕ

-- The bytes of an ASCII literal.
abbrev pub codes : String → Bytes
codes String.[] = []
codes (String.◌∷◌ c s) = code c ∷ codes s

module _ {ℓ κ} {A : Type ℓ} (P : A → Type κ) where
  abbrev pub All : List A → Type κ
  All [] = Unit
  All (x ∷ xs) = P x × All xs

  pub All-append : (xs ys : List A) → All xs → All ys → All (xs ++ ys)
  All-append [] ys _ hy = hy
  All-append (x ∷ xs) ys (px, hx) hy = (px, All-append xs ys hx hy)

pub All_imp {ℓ κ μ} :
    {A : Type ℓ} {P : A → Type κ} {Q : A → Type μ}
    → ((x : A) → P x → Q x)
    → (xs : List A) → All P xs
    → All Q xs
All_imp f [] h = tt
All_imp f (x ∷ xs) (p, h) = (f x p, All_imp f xs h)

-- The bytes of a C string: none is NUL, each fits a `char`.
abbrev pub IsText : Bytes → Type 0
IsText = All (λ c. (0 < c) × (c < 256))

-- A test that every byte passes is found out by running it at all of them.
passes : (ℕ → Bool) → ℕ → Bool
passes test zero = true
passes test (suc limit) = passes test limit && test limit

unfoldable pub every_byte : (ℕ → Bool) → Bool
unfolding passes
every_byte test = passes test 256

passes-below :
    (test : ℕ → Bool) (limit c : ℕ) → c < limit → passes test limit ≡ true → test c ≡ true
unfolding passes
passes-below test zero c below run = absurd (omega (arith, below))
passes-below test (suc limit) c below run = ground (arith, passes-below test limit c)

pub every_byte_holds :
    (test : ℕ → Bool) → every_byte test ≡ true → (c : ℕ) → c < 256 → test c ≡ true
unfolding every_byte
every_byte_holds test run c below = passes-below test 256 c below run
