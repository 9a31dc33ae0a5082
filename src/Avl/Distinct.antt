-- ===== src/Avl/Distinct.antt =====
-- Trees without repeated nodes, and what a turn keeps of that.
use redis_database_basic_imp.Prelude.{
  ◌≡◌, sym, ap, ◌∙◌, inl, inr, Bool-cases, true, false, arith, ◌==◌,
}
use redis_database_basic_imp.Avl.{Ptr}
use redis_database_basic_imp.Avl.Tree.{Tree, fork, has, Apart, IsDistinct}

pub differs : (n q : Ptr) (t : Tree) → has n t ≡ false → has q t ≡ true → (q == n) ≡ false
differs n q t h i = elim (Bool-cases (q == n)) [
  | inr f ↦ f
  | inl e ↦
      let z : q ≡ n = ground arith in absurd (grind (arith, sym h ∙ ap (λ p. has p t) (sym z) ∙ i))
]

pub self : (n : Ptr) → (n == n) ≡ true
self n = ground arith

pub Apart-sym : (l r : Tree) → Apart l r → Apart r l
Apart-sym l r h a i = elim (Bool-cases (has a l)) [
  | inr f ↦ f
  | inl t ↦ absurd (ground (arith, h a t))
]

pub flip : (n x : Ptr) → (n == x) ≡ false → (x == n) ≡ false
flip n x h = ground arith

Apart-turned :
    (x y : Ptr) (a b c : Tree)
    → has x (fork y b c) ≡ false
    → Apart a (fork y b c)
    → Apart b c
    → Apart (fork x a b) c
Apart-turned x y a b c out apart bc q i = elim (Bool-cases (q == x)) [
  | inl e ↦ let z : q ≡ x = ground arith in rw z (ground arith)
  | inr n ↦ ground (arith, apart q, bc q)
]

y_out :
    (x y : Ptr) (a b c : Tree)
    → Apart a (fork y b c)
    → has x (fork y b c) ≡ false
    → ((y == x) ≡ false) × (has y a ≡ false)
y_out x y a b c apart out =
    let e = self y in (flip x y (ground arith), Apart-sym a (fork y b c) apart y (ground arith))

-- A turn to the left keeps the nodes distinct.
pub IsDistinct-turn_left :
    (x y : Ptr) (a b c : Tree)
    → IsDistinct (fork x a (fork y b c))
    → IsDistinct (fork y (fork x a b) c)
IsDistinct-turn_left x y a b c (xa, xyz, apart, da, (yb, yc, bc, db, dc)) = (
  ground (arith, y_out x y a b c apart xyz, yb),
  yc,
  Apart-turned x y a b c xyz apart bc,
  (xa, ground (arith, xyz), (λ q i. ground (arith, apart q i)), da, db),
  dc,
)

Apart-turned_right :
    (x y : Ptr) (a b c : Tree)
    → has x (fork y c b) ≡ false
    → Apart (fork y c b) a
    → Apart c b
    → Apart c (fork x b a)
Apart-turned_right x y a b c out apart cb q i = elim (Bool-cases (q == x)) [
  | inl e ↦
      let z : x ≡ q = ground arith in let out' = rw z at out in absurd (ground (arith, out', i))
  | inr n ↦ let h = apart q in let k = cb q i in ground arith
]

-- A turn to the right keeps the nodes distinct.
pub IsDistinct-turn_right :
    (x y : Ptr) (a b c : Tree)
    → IsDistinct (fork x (fork y c b) a)
    → IsDistinct (fork y c (fork x b a))
IsDistinct-turn_right x y a b c (xyz, xa, apart, (yc, yb, cb, dc, db), da) =
    let e = self y in
    let out : has y a ≡ false = apart y (ground arith) in
    (
      yc,
      ground (arith, flip x y (ground arith), yb, out),
      Apart-turned_right x y a b c xyz apart cb,
      dc,
      (ground (arith, xyz), xa, (λ q i. let h = apart q in ground arith), db, da),
    )
