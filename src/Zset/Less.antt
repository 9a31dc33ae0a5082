-- ===== src/Zset/Less.antt =====
-- `zless` is a strict order.
use redis_database_basic_imp.Prelude.{
  ℕ, suc, ◌<◌, ◌≡◌, refl, ap, sym, ◌∙◌, ◌⊎◌, inl, inr, Bool, true, false, not, ◌&&◌, Bool-cases, [],
  ◌∷◌, ltb, ltb→lt, ◌==◌, if◌then◌else◌, arith,
}
use redis_database_basic_imp.Prelude.Bytes.{Bytes, same_bytes}
use redis_database_basic_imp.Prelude.Doubles.{dbl_eq, dbl_lt, rank, is_nan}
use redis_database_basic_imp.Zset.{ZNode, Cmp, less, same, more, memcmp, zless, by_cmp, min_len}

-- The lexicographic order of the names.
abbrev name_less : Bytes → Bytes → Bool
name_less [] [] = false
name_less [] (y ∷ ys) = true
name_less (x ∷ xs) [] = false
name_less (x ∷ xs) (y ∷ ys) = if x == y then name_less xs ys else ltb x y

min_len-empty : (y : ℕ) (ys : Bytes) → min_len [] (y ∷ ys) ≡ 0
min_len-empty y ys = ground arith

min_len-empty_right : (x : ℕ) (xs : Bytes) → min_len (x ∷ xs) [] ≡ 0
min_len-empty_right x xs = ground arith

min_len-step : (x y : ℕ) (xs ys : Bytes) → min_len (x ∷ xs) (y ∷ ys) ≡ suc (min_len xs ys)
min_len-step x y xs ys = ground arith

by_cmp-step : (c : Cmp) (x y : ℕ) (xs ys : Bytes) → by_cmp c (x ∷ xs) (y ∷ ys) ≡ by_cmp c xs ys
by_cmp-step less x y xs ys = refl
by_cmp-step same x y xs ys = ground arith
by_cmp-step more x y xs ys = refl

by_cmp-memcmp : (a b : Bytes) → by_cmp (memcmp (min_len a b) a b) a b ≡ name_less a b
by_cmp-memcmp [] [] = refl
by_cmp-memcmp [] (y ∷ ys) = rw (min_len-empty y ys) (ground arith)
by_cmp-memcmp (x ∷ xs) [] = rw (min_len-empty_right x xs) (ground arith)
by_cmp-memcmp (x ∷ xs) (y ∷ ys) = elim (Bool-cases (x == y)) [
  | inl e ↦
      rw (min_len-step x y xs ys, e, by_cmp-step (memcmp (min_len xs ys) xs ys) x y xs ys)
        (by_cmp-memcmp xs ys)
  | inr n ↦ elim (Bool-cases (ltb x y)) [
    | inl l ↦ rw (min_len-step x y xs ys, n, l) refl
    | inr l ↦ rw (min_len-step x y xs ys, n, l) refl
  ]
]

name_less_trans :
    (a b c : Bytes) → name_less a b ≡ true → name_less b c ≡ true → name_less a c ≡ true
name_less_trans [] [] [] h k = h
name_less_trans [] (y ∷ b) [] h k = k
name_less_trans [] b (z ∷ c) h k = refl
name_less_trans (x ∷ a) [] c h k = absurd cc
name_less_trans (x ∷ a) (y ∷ b) [] h k = absurd cc
name_less_trans (x ∷ a) (y ∷ b) (z ∷ c) h k = ground (arith, name_less_trans a b c)

zless_def :
    (a b : ZNode)
    → zless a b
      ≡ (if dbl_eq a.score b.score then name_less a.name b.name else dbl_lt a.score b.score)
unfolding zless
zless_def a b =
    ap (λ n. if dbl_eq a.score b.score then n else dbl_lt a.score b.score)
      (by_cmp-memcmp a.name b.name)

-- The test by scores and names, from numbers.
abbrev first_of : (na nb by_name : Bool) (x y : ℕ) → Bool
first_of na nb by_name x y =
    if (not na && not nb) && (x == y) then by_name else (not na && not nb) && ltb x y

abbrev IsBefore : (na nb by_name : Bool) (x y : ℕ) → Type 0
IsBefore na nb by_name x y = (na ≡ false) × (nb ≡ false) × ((x < y) ⊎ ((x ≡ y) × (by_name ≡ true)))

first_of-IsBefore :
    (na nb by_name : Bool) (x y : ℕ)
    → first_of na nb by_name x y ≡ true
    → IsBefore na nb by_name x y
first_of-IsBefore true nb n x y h = absurd cc
first_of-IsBefore false true n x y h = absurd cc
first_of-IsBefore false false n x y h = elim (Bool-cases (x == y)) [
  | inl e ↦ (refl, refl, inr (ground arith, rw e at h))
  | inr e ↦ (refl, refl, inl (ltb→lt x y (rw e at h)))
]

IsBefore-first_of :
    (na nb by_name : Bool) (x y : ℕ)
    → IsBefore na nb by_name x y
    → first_of na nb by_name x y ≡ true
IsBefore-first_of na nb n x y (a, b, inl l) = rw (a, b) (ground arith)
IsBefore-first_of na nb n x y (a, b, inr (e, l)) = rw (a, b, e) (ground (arith, l))

abbrev IsBelow : ZNode → ZNode → Type 0
IsBelow a b =
    IsBefore (is_nan a.score) (is_nan b.score) (name_less a.name b.name) (rank a.score)
      (rank b.score)

-- What it takes for one node to be less than another.
zless-IsBelow : (a b : ZNode) → zless a b ≡ true → IsBelow a b
unfolding dbl_eq dbl_lt
zless-IsBelow a b h = first_of-IsBefore _ _ _ _ _ (sym (zless_def a b) ∙ h)

IsBelow-zless : (a b : ZNode) → IsBelow a b → zless a b ≡ true
unfolding dbl_eq dbl_lt
IsBelow-zless a b h = zless_def a b ∙ IsBefore-first_of _ _ _ _ _ h

IsBelow-trans : (a b c : ZNode) → IsBelow a b → IsBelow b c → IsBelow a c
IsBelow-trans a b c (na, nb, inl l) (nb', nc, inl k) = (na, nc, inl (omega arith))
IsBelow-trans a b c (na, nb, inl l) (nb', nc, inr (e, k)) = (na, nc, inl (omega arith))
IsBelow-trans a b c (na, nb, inr (e, l)) (nb', nc, inl k) = (na, nc, inl (omega arith))
IsBelow-trans a b c (na, nb, inr (e, l)) (nb', nc, inr (f, k)) =
    (na, nc, inr (e ∙ f, name_less_trans a.name b.name c.name l k))

-- A node that is less than one that is less than a third is less than the third, whatever the scores
-- and the names are.
pub zless_trans : (a b c : ZNode) → zless a b ≡ true → zless b c ≡ true → zless a c ≡ true
zless_trans a b c h k =
    IsBelow-zless a c (IsBelow-trans a b c (zless-IsBelow a b h) (zless-IsBelow b c k))

name_less-not : (a b : Bytes) → same_bytes a b ≡ false → name_less a b ≡ not (name_less b a)
name_less-not [] [] h = absurd cc
name_less-not [] (y ∷ b) h = refl
name_less-not (x ∷ a) [] h = refl
name_less-not (x ∷ a) (y ∷ b) h = ground (arith, name_less-not a b)

first_of-not :
    (n n' : Bool) (x y : ℕ)
    → n ≡ not n'
    → first_of false false n x y ≡ not (first_of false false n' y x)
first_of-not n n' x y h = ground arith

-- Of two nodes with different names, whose scores are not NaN, exactly one is less than the other.
pub zless-not :
    (a b : ZNode)
    → is_nan a.score ≡ false
    → is_nan b.score ≡ false
    → same_bytes a.name b.name ≡ false
    → zless a b ≡ not (zless b a)
unfolding dbl_eq dbl_lt
zless-not a b na nb other =
    zless_def a b
    ∙ rw (na, nb)
        (first_of-not _ _ (rank a.score) (rank b.score) (name_less-not a.name b.name other))
    ∙ ap not (sym (zless_def b a))
