-- ===== src/DList/Ring.antt =====
-- The links of the idle list stand for a sequence of nodes.
use mathlib.Core.Path.{subst}
use mathlib.Core.List.{append-nil}
use redis_database_basic_imp.Prelude.{
  ℕ, ◌≡◌, refl, sym, ap, ◌∙◌, true, false, List, [], ◌∷◌, ◌++◌, ◌==◌, arith,
}
use redis_database_basic_imp.Prelude.Members.{
  in_list, IsDistinct, in_list-differs, in_list-first, IsDistinct-parts, IsDistinct-without,
  IsDistinct-snoc, in_list-without, apart_sym,
}
use redis_database_basic_imp.DList.{Links, dlist_detach, list_insert_before}

-- The links lead from `a` over the nodes `ns` to `b`, and back.
abbrev pub IsLinked : Links → ℕ → List ℕ → ℕ → Type 0
IsLinked l a [] b = (l.next a ≡ b) × (l.prev b ≡ a)
IsLinked l a (n ∷ ns) b = (l.next a ≡ n) × (l.prev n ≡ a) × IsLinked l n ns b

-- A ring through `head` and `ns`, in which no node stands twice.
pub record IsRing (l : Links) (head : ℕ) (ns : List ℕ) : Type 0 where
  pub linked : IsLinked l head ns head
  pub distinct : IsDistinct (head ∷ ns)

IsLinked-split :
    (l : Links) (a b n : ℕ) (xs ys : List ℕ)
    → IsLinked l a (xs ++ (n ∷ ys)) b
    → IsLinked l a xs n × IsLinked l n ys b
IsLinked-split l a b n [] ys (e, f, rest) = ((e, f), rest)
IsLinked-split l a b n (x ∷ xs) ys (e, f, rest) =
    let (h, k) = IsLinked-split l x b n xs ys rest in ((e, f, h), k)

IsLinked-join :
    (l : Links) (a b n : ℕ) (xs ys : List ℕ)
    → IsLinked l a xs n
    → IsLinked l n ys b
    → IsLinked l a (xs ++ (n ∷ ys)) b
IsLinked-join l a b n [] ys (e, f) k = (e, f, k)
IsLinked-join l a b n (x ∷ xs) ys (e, f, h) k = (e, f, IsLinked-join l x b n xs ys h k)

-- The node before the end of a sequence.
last_in :
    (l : Links) (a n : ℕ) (xs : List ℕ) → IsLinked l a xs n → in_list (l.prev n) (a ∷ xs) ≡ true
last_in l a n [] (e, f) = ground (arith, f)
last_in l a n (x ∷ xs) (e, f, h) = ground (arith, last_in l x n xs h)

-- The links `l'` keep the sequence up to its end, and go on to `m` instead of `n`.
IsLinked-relink :
    (l l' : Links) (a n m : ℕ) (xs : List ℕ)
    → IsDistinct (a ∷ xs)
    → l'.next (l.prev n) ≡ m
    → l'.prev m ≡ l.prev n
    → ((q : ℕ) → (q == l.prev n) ≡ false → in_list q (a ∷ xs) ≡ true → l'.next q ≡ l.next q)
    → ((q : ℕ) → in_list q xs ≡ true → l'.prev q ≡ l.prev q)
    → IsLinked l a xs n
    → IsLinked l' a xs m
IsLinked-relink l l' a n m [] d on back nexts prevs (e, f) = (ap l'.next (sym f) ∙ on, back ∙ f)
IsLinked-relink l l' a n m (x ∷ xs) (ax, d) on back nexts prevs (e, f, h) =
    let away : (a == l.prev n) ≡ false =
      in_list-differs a (l.prev n) (x ∷ xs) ax (last_in l x n xs h) in
    (
      nexts a away (in_list-first a (x ∷ xs)) ∙ e,
      prevs x (in_list-first x xs) ∙ f,
      IsLinked-relink l l' x n m xs d on back (λ q o i. nexts q o (ground (arith, i)))
          (λ q i. prevs q (ground (arith, i))) h,
    )

-- Links that agree on the nodes.
pub IsLinked-frame :
    (l l' : Links) (a b : ℕ) (xs : List ℕ)
    → ((q : ℕ) → in_list q (a ∷ xs) ≡ true → l'.next q ≡ l.next q)
    → ((q : ℕ) → in_list q (b ∷ xs) ≡ true → l'.prev q ≡ l.prev q)
    → IsLinked l a xs b
    → IsLinked l' a xs b
IsLinked-frame l l' a b [] nexts prevs (e, f) =
    (nexts a (in_list-first a []) ∙ e, prevs b (in_list-first b []) ∙ f)
IsLinked-frame l l' a b (x ∷ xs) nexts prevs (e, f, h) = (
  nexts a (in_list-first a (x ∷ xs)) ∙ e,
  prevs x (ground (arith, in_list-first x xs)) ∙ f,
  IsLinked-frame l l' x b xs (λ q i. nexts q (ground (arith, i)))
      (λ q i. prevs q (ground (arith, i))) h,
)

flip : (p q : ℕ) → (p == q) ≡ false → (q == p) ≡ false
flip p q h = ground arith

module _ (l : Links) (n : ℕ) where
  detach_next : (q : ℕ) → (q == l.prev n) ≡ false → (dlist_detach l n).next q ≡ l.next q
  detach_next q h = rw (flip q (l.prev n) h) refl

  detach_prev : (q : ℕ) → (q == l.next n) ≡ false → (dlist_detach l n).prev q ≡ l.prev q
  detach_prev q h = rw (flip q (l.next n) h) refl

  detach_on : (dlist_detach l n).next (l.prev n) ≡ l.next n
  detach_on = let e : (l.prev n == l.prev n) ≡ true = ground arith in rw e refl

  detach_back : (m : ℕ) → l.next n ≡ m → (dlist_detach l n).prev m ≡ l.prev n
  detach_back m h = let e : (l.next n == m) ≡ true = ground arith in rw e refl

  -- The part before `n`, and that after it.
  module _ (head : ℕ) (xs : List ℕ) (before : IsLinked l head xs n) where
    detach_before :
        (m : ℕ)
        → IsDistinct (head ∷ xs)
        → l.next n ≡ m
        → in_list m xs ≡ false
        → IsLinked (dlist_detach l n) head xs m
    detach_before m d e out =
        IsLinked-relink l (dlist_detach l n) head n m xs d (detach_on ∙ e) (detach_back m e)
          (λ q o i. detach_next q o)
          (λ q i. detach_prev q (rw e (flip m q (in_list-differs m q xs out i)))) before

    detach_after :
        (y : ℕ) (ys : List ℕ)
        → l.next n ≡ y
        → in_list y (head ∷ ys) ≡ false
        → ((q : ℕ) → in_list q (head ∷ xs) ≡ true → in_list q (y ∷ ys) ≡ false)
        → IsLinked l y ys head
        → IsLinked (dlist_detach l n) y ys head
    detach_after y ys e out apart h =
        IsLinked-frame l (dlist_detach l n) y head ys
          (λ q i. detach_next q (
            flip (l.prev n) q (
              in_list-differs (l.prev n) q (y ∷ ys) (apart (l.prev n) (last_in l head n xs before))
                i)))
          (λ q i. detach_prev q (rw e (flip y q (in_list-differs y q (head ∷ ys) out i)))) h

-- A node that is detached from a ring leaves the ring of the others, in their order.
pub dlist_detach-IsRing :
    (l : Links) (head n : ℕ) (xs ys : List ℕ)
    → IsRing l head (xs ++ (n ∷ ys))
    → IsRing (dlist_detach l n) head (xs ++ ys)
dlist_detach-IsRing l head n xs [] r =
    let (before, (e, f)) = IsLinked-split l head head n xs [] r.linked in
    let (dx, dy, apart) = IsDistinct-parts (head ∷ xs) (n ∷ []) r.distinct in
    let ring : IsRing (dlist_detach l n) head xs = record {
      linked = detach_before l n head xs before head dx e dx.0;
      distinct = dx;
    } in
    subst (IsRing (dlist_detach l n) head) (sym (append-nil xs)) ring
dlist_detach-IsRing l head n xs (y ∷ ys) r =
    let (before, (e, f, after)) = IsLinked-split l head head n xs (y ∷ ys) r.linked in
    let (dx, dy, apart) = IsDistinct-parts (head ∷ xs) (n ∷ (y ∷ ys)) r.distinct in
    let here : in_list y (n ∷ y ∷ ys) ≡ true = ground (arith, in_list-first y ys) in
    let out : in_list y (head ∷ xs) ≡ false = apart_sym (head ∷ xs) (n ∷ y ∷ ys) y apart here in
    record {
      linked =
          IsLinked-join (dlist_detach l n) head head y xs ys
            (detach_before l n head xs before y dx e (ground (arith, out)))
            (detach_after l n head xs before y ys e (ground (arith, out, dy.1.0))
              (λ q i. ground (arith, apart q i)) after);
      distinct = IsDistinct-without (head ∷ xs) (y ∷ ys) n r.distinct;
    }

module _ (l : Links) (head n : ℕ) (other : (head == n) ≡ false) where
  insert_next :
      (q : ℕ)
      → (q == l.prev head) ≡ false
      → (q == n) ≡ false
      → (list_insert_before l head n).next q ≡ l.next q
  insert_next q h k = rw (flip q (l.prev head) h, flip q n k) refl

  insert_prev :
      (q : ℕ)
      → (q == head) ≡ false
      → (q == n) ≡ false
      → (list_insert_before l head n).prev q ≡ l.prev q
  insert_prev q h k = rw (flip q head h, flip q n k) refl

  insert_on : (n == l.prev head) ≡ false → (list_insert_before l head n).next (l.prev head) ≡ n
  insert_on h = let e : (l.prev head == l.prev head) ≡ true = ground arith in rw (h, e) refl

  insert_back : (list_insert_before l head n).prev n ≡ l.prev head
  insert_back = let e : (n == n) ≡ true = ground arith in rw (other, e) refl

  insert_end : IsLinked (list_insert_before l head n) n [] head
  insert_end =
      let e : (n == n) ≡ true = ground arith in
      let f : (head == head) ≡ true = ground arith in (rw e refl, rw f refl)

-- A node that is inserted before the head of a ring that it does not stand in becomes the last one.
pub list_insert_before-IsRing :
    (l : Links) (head n : ℕ) (ns : List ℕ)
    → IsRing l head ns
    → in_list n (head ∷ ns) ≡ false
    → IsRing (list_insert_before l head n) head (ns ++ (n ∷ []))
list_insert_before-IsRing l head n ns r out =
    let l' = list_insert_before l head n in
    let other : (head == n) ≡ false = ground (arith, out) in
    let away = in_list-differs n (l.prev head) (head ∷ ns) out (last_in l head head ns r.linked) in
    let front =
      IsLinked-relink l l' head head n ns r.distinct (insert_on l head n other away)
        (insert_back l head n other)
        (λ q o i. insert_next l head n other q o (flip n q (in_list-differs n q (head ∷ ns) out i)))
        (λ q i.
          insert_prev l head n other q (flip head q (in_list-differs head q ns r.distinct.0 i))
            (flip n q (in_list-differs n q ns (ground (arith, out)) i)))
        r.linked in
    record {
      linked = IsLinked-join l' head head n ns [] front (insert_end l head n other);
      distinct = IsDistinct-snoc (head ∷ ns) n r.distinct out;
    }

-- The two calls with which `connection_io` refreshes a connection: its node moves to
-- the end of the sequence of the ring, and the others keep their order.
pub refresh-IsRing :
    (l : Links) (head n : ℕ) (xs ys : List ℕ)
    → IsRing l head (xs ++ (n ∷ ys))
    → IsRing (list_insert_before (dlist_detach l n) head n) head ((xs ++ ys) ++ (n ∷ []))
refresh-IsRing l head n xs ys r =
    list_insert_before-IsRing (dlist_detach l n) head n (xs ++ ys)
      (dlist_detach-IsRing l head n xs ys r) (in_list-without (head ∷ xs) ys n r.distinct)
