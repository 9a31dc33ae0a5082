-- ===== src/Prelude/Members.antt =====
-- Lists of numbers: membership as a test, and lists without repetition.
use Prim.Native.Nat.{ℕ}
use mathlib.Core.Path.{◌≡◌, ◌∙◌, refl, ap}
use mathlib.Core.Bool.{Bool, true, false, ◌||◌}
use mathlib.Core.List.{List, [], ◌∷◌, ◌++◌}
use native.Mathlib.Omega.{arith}
use mathlib.Core.Logic.{inl, inr}
use redis_database_basic_imp.Prelude.Tests.{◌==◌, Bool-cases}

abbrev pub in_list : ℕ → List ℕ → Bool
in_list q [] = false
in_list q (p ∷ ps) = (q == p) || in_list q ps

pub in_list-append :
    (q : ℕ) (ps qs : List ℕ) → in_list q (ps ++ qs) ≡ (in_list q ps || in_list q qs)
in_list-append q [] qs = refl
in_list-append q (p ∷ ps) qs = rw (in_list-append q ps qs) (ground arith)

abbrev pub IsDistinct : List ℕ → Type 0
IsDistinct [] = Unit
IsDistinct (x ∷ xs) = (in_list x xs ≡ false) × IsDistinct xs

pub in_list-differs :
    (p q : ℕ) (xs : List ℕ) → in_list p xs ≡ false → in_list q xs ≡ true → (p == q) ≡ false
in_list-differs p q [] h i = absurd cc
in_list-differs p q (x ∷ xs) h i = ground (arith, in_list-differs p q xs)

pub in_list-first : (x : ℕ) (xs : List ℕ) → in_list x (x ∷ xs) ≡ true
in_list-first x xs = let e : (x == x) ≡ true = ground arith in rw e refl

pub IsDistinct-parts :
    (xs ys : List ℕ)
    → IsDistinct (xs ++ ys)
    → IsDistinct xs × IsDistinct ys × ((q : ℕ) → in_list q xs ≡ true → in_list q ys ≡ false)
IsDistinct-parts [] ys d = (tt, d, λ q i. absurd cc)
IsDistinct-parts (x ∷ xs) ys (out, d) =
    let (dx, dy, apart) = IsDistinct-parts xs ys d in
    let split = in_list-append x xs ys in
    (
      (ground (arith, split, out), dx),
      dy,
      λ q i. elim (Bool-cases (q == x)) [
        | inl e ↦ let z : q ≡ x = ground arith in rw z (ground (arith, split, out))
        | inr f ↦ apart q (ground (arith, i, f))
      ],
    )

pub IsDistinct-without :
    (xs ys : List ℕ) (n : ℕ) → IsDistinct (xs ++ (n ∷ ys)) → IsDistinct (xs ++ ys)
IsDistinct-without [] ys n d = d.1
IsDistinct-without (x ∷ xs) ys n (out, d) = (
  ground (arith, in_list-append x xs (n ∷ ys), in_list-append x xs ys, out),
  IsDistinct-without xs ys n d,
)

pub in_list-without :
    (xs ys : List ℕ) (n : ℕ) → IsDistinct (xs ++ (n ∷ ys)) → in_list n (xs ++ ys) ≡ false
in_list-without [] ys n d = d.0
in_list-without (x ∷ xs) ys n (out, d) =
    ground (arith, in_list-append x xs (n ∷ ys), out, in_list-without xs ys n d)

pub IsDistinct-snoc :
    (xs : List ℕ) (n : ℕ) → IsDistinct xs → in_list n xs ≡ false → IsDistinct (xs ++ (n ∷ []))
IsDistinct-snoc [] n d out = (refl, tt)
IsDistinct-snoc (x ∷ xs) n (ox, d) out = (
  ground (arith, in_list-append x xs (n ∷ []), ox, out),
  IsDistinct-snoc xs n d (ground (arith, out)),
)

pub apart_sym :
    (xs ys : List ℕ) (q : ℕ)
    → ((p : ℕ) → in_list p xs ≡ true → in_list p ys ≡ false)
    → in_list q ys ≡ true
    → in_list q xs ≡ false
apart_sym xs ys q h i = elim (Bool-cases (in_list q xs)) [
  | inr f ↦ f
  | inl t ↦ let f = h q t in absurd (ground (arith, f, i))
]

-- Where a member stands.
pub in_list-split :
    (q : ℕ) (ps : List ℕ)
    → in_list q ps ≡ true
    → (xs : List ℕ) × (ys : List ℕ) × (ps ≡ xs ++ (q ∷ ys))
in_list-split q [] i = absurd cc
in_list-split q (p ∷ ps) i = elim (Bool-cases (q == p)) [
  | inl e ↦ let z : p ≡ q = ground arith in ([], ps, ap (λ x. x ∷ ps) z)
  | inr f ↦
      let (xs, ys, e) = in_list-split q ps (ground (arith, i, f)) in (p ∷ xs, ys, ap (λ l. p ∷ l) e)
]

pub in_list-here : (q : ℕ) (xs ys : List ℕ) → in_list q (xs ++ (q ∷ ys)) ≡ true
in_list-here q xs ys = in_list-append q xs (q ∷ ys) ∙ rw (in_list-first q ys) (ground arith)
