-- ===== src/HashTable/Lookup.antt =====
-- `hlookup` and `hm_lookup`: what they find, and that they find it.
use Prim.Native.Nat.{bit_and}
use mathlib.Core.Option
use redis_database_basic_imp.Prelude.{
  ℕ, suc, ◌≤◌, ◌<◌, ◌≡◌, ◌≢◌, ◌⊎◌, inl, inr, refl, ap, sym, ◌∙◌, Bool, true, false, List, [], ◌∷◌,
  Option, none, some, arith, Bool-cases, Option-cases, length, get_elem?, get_or, get_elem?-get_or,
  All,
}
use redis_database_basic_imp.Prelude.Run.{Run, ok, ◌>>=◌, Returns}
use redis_database_basic_imp.HashTable.{
  HTab, HMap, From, Side, newer, older, table, matches, chain_lookup, hlookup, lookup_both, node_at,
  hm_lookup, is_null,
}
use redis_database_basic_imp.HashTable.Count.{
  count, count_in, to_nat, count_only, get_elem?-counted, bucket-le-count,
}
use redis_database_basic_imp.HashTable.Valid.{IsTable, IsNull, IsPlaced, IsValid, nodes, SameNodes}
use redis_database_basic_imp.HashTable.Place.{index-lt}
use redis_database_basic_imp.HashTable.Resize.{hm_help_resizing-Advanced}

pub not_null {ℓ} : {A : Type ℓ} (xs : List A) (i : ℕ) → i < length xs → is_null xs ≡ false
not_null [] i h = elim h [ ]
not_null (x ∷ xs) i h = refl

module _ {ℓ} {A : Type ℓ} (hcode : A → ℕ) (eq : A → A → Bool) (key : A) where
  abbrev pub wanted : A → Bool
  wanted = matches hcode eq key

  chain_lookup-some :
      (c : List A) (k : ℕ)
      → chain_lookup hcode eq key c ≡ some k
      → (x : A) × (get_elem? c k ≡ some x) × (wanted x ≡ true)
  unfolding chain_lookup
  chain_lookup-some [] k e = absurd (cc)
  chain_lookup-some (cur ∷ rest) k e = elim (Bool-cases (wanted cur)) [
    | inl t ↦ let z : k ≡ 0 = ground arith in (cur, rw z refl, t)
    | inr f ↦ elim (Option-cases (chain_lookup hcode eq key rest)) [
      | inl n ↦ absurd (ground arith)
      | inr (j, e') ↦
          let (x, at, w) = chain_lookup-some rest j e' in
          let z : k ≡ suc j = ground arith in (x, rw z at, w)
    ]
  ]

  chain_lookup-none : (c : List A) → chain_lookup hcode eq key c ≡ none → count_in wanted c ≡ 0
  unfolding chain_lookup count_in
  chain_lookup-none [] e = refl
  chain_lookup-none (cur ∷ rest) e = ground (arith, chain_lookup-none rest)

  -- No node of another bucket is wanted.
  count_in-elsewhere :
      (t : HTab A) (i : ℕ) (c : List A)
      → All (λ n. bit_and (hcode n) t.mask ≡ i) c
      → i ≢ bit_and (hcode key) t.mask
      → count_in wanted c ≡ 0
  unfolding count_in
  count_in-elsewhere t i [] h n = refl
  count_in-elsewhere t i (x ∷ c) h n =
      let apart : hcode x ≢ hcode key = λ e. n (sym h.0 ∙ ap (λ k. bit_and k t.mask) e) in
      ground (arith, count_in-elsewhere t i c h.1 n)

  wanted_home :
      (t : HTab A)
      → IsPlaced hcode t
      → count wanted t.tab ≡ count_in wanted (get_or t.tab (bit_and (hcode key) t.mask) [])
  wanted_home t v =
      count_only wanted t.tab _ (λ i n. count_in-elsewhere t i (get_or t.tab i []) (v i) n)

  -- Where the lookup points when it stops at offset `k`.
  abbrev pub from_at : HMap A → Side → ℕ → From
  from_at m side k = record {
    side = side;
    bucket = bit_and (hcode key) (table m side).mask;
    offset = k;
  }

  -- A wanted node `x` stands there.
  pub record Hit (m : HMap A) (side : Side) (k : ℕ) (x : A) : Type ℓ where
    pub inside : bit_and (hcode key) (table m side).mask < length (table m side).tab
    pub here :
        get_elem? (get_or (table m side).tab (bit_and (hcode key) (table m side).mask) []) k
        ≡ some x
    pub fits : wanted x ≡ true

  -- The lookup misses a table that holds no wanted node, or hits one.
  hlookup_cases :
      (m : HMap A) (side : Side)
      → IsPlaced hcode (table m side)
      → IsNull (table m side) ⊎ IsTable (table m side)
      → ((hlookup hcode m side key eq ≡ ok none) × (count wanted (table m side).tab ≡ 0))
        ⊎ ((k : ℕ) × (x : A) × (hlookup hcode m side key eq ≡ ok (some (from_at m side k)))
            × Hit m side k x)
  unfolding hlookup count
  hlookup_cases m side v (inl n) =
      let nn : is_null (table m side).tab ≡ true = rw n in inl (rw nn, ap (count wanted) n)
  hlookup_cases m side v (inr s) =
      let t = table m side in
      let l = index-lt t (hcode key) s.0 in
      let nn : is_null t.tab ≡ false = not_null t.tab _ l in
      let c = get_or t.tab (bit_and (hcode key) t.mask) [] in
      elim (Option-cases (chain_lookup hcode eq key c)) [
        | inl e ↦ inl (
          rw (nn, get_elem?-get_or t.tab _ [] l, ◌>>=◌, e),
          wanted_home t v ∙ chain_lookup-none c e,
        )
        | inr (k, e) ↦
            let (x, at, w) = chain_lookup-some c k e in
            inr (
              k,
              x,
              rw (nn, get_elem?-get_or t.tab _ [] l, ◌>>=◌, e),
              record { inside = l; here = at; fits = w },
            )
      ]

  Hit-node_at :
      (m : HMap A) (side : Side) (k : ℕ) (x : A)
      → Hit m side k x
      → node_at m (from_at m side k) ≡ some x
  unfolding node_at Option.bind
  Hit-node_at m side k x h = rw (get_elem?-get_or (table m side).tab _ [] h.inside) h.here

  pub Hit-counted :
      (m : HMap A) (side : Side) (k : ℕ) (x : A) (p : A → Bool)
      → Hit m side k x
      → to_nat (p x) ≤ count p (table m side).tab
  Hit-counted m side k x p h = omega (
    arith,
    get_elem?-counted p _ k x h.here,
    bucket-le-count p (table m side).tab (bit_and (hcode key) (table m side).mask),
  )

  -- The three ways in which the lookup in both tables ends.
  pub data Located (m : HMap A) (r : Run (Option From)) : Type ℓ where
    absent : r ≡ ok none → nodes wanted m ≡ 0 → Located m r
    in_newer : (k : ℕ) (x : A) → r ≡ ok (some (from_at m newer k)) → Hit m newer k x → Located m r
    in_older :
        (k : ℕ) (x : A)
        → r ≡ ok (some (from_at m older k))
        → count wanted m.ht1.tab ≡ 0
        → Hit m older k x
        → Located m r

  pub lookup_both-Located : (m : HMap A) → IsValid hcode m → Located m (lookup_both hcode m key eq)
  unfolding lookup_both
  lookup_both-Located m v =
      let newer_shape : IsNull m.ht1 ⊎ IsTable m.ht1 = elim v.begun [
        | inl n ↦ inl n.0
        | inr s ↦ inr s
      ] in
      elim (hlookup_cases m newer v.newer.placed newer_shape) [
        | inr (k, x, run, h) ↦ in_newer k x (rw run) h
        | inl (miss, z) ↦ elim (hlookup_cases m older v.older.placed v.shape) [
          | inr (k, x, run, h) ↦ in_older k x (rw (miss, ◌>>=◌, run)) z h
          | inl (miss', z') ↦ absent (rw (miss, ◌>>=◌, miss')) (omega arith)
        ]
      ]

  -- What a lookup in the nodes of `m` may return: nothing if no node is wanted, and otherwise a
  -- wanted node of the map. (A node of the map fails no test that all the nodes pass.)
  pub data IsFound (m : HMap A) : Option A → Type ℓ where
    missing : nodes wanted m ≡ 0 → IsFound m none
    found :
        {x : A}
        → wanted x ≡ true
        → ((p : A → Bool) → nodes p m ≡ 0 → p x ≡ false)
        → IsFound m (some x)

  -- `r` is the answer of a lookup in `m`, and the map afterwards.
  pub record LookedUp (m : HMap A) (r : Option A × HMap A) : Type ℓ where
    pub valid : IsValid hcode r.1
    pub same : SameNodes m r.1
    pub answer : IsFound m r.0
    pub few : r.1.ht2.size ≤ m.ht2.size

  hit-IsFound :
      (m m' : HMap A) (side : Side) (k : ℕ) (x : A)
      → SameNodes m m'
      → ((p : A → Bool) → count p (table m' side).tab ≤ nodes p m')
      → Hit m' side k x
      → IsFound m (some x)
  hit-IsFound m m' side k x same le h =
      found h.fits (λ p z. ground (arith, same p, le p, Hit-counted m' side k x p h))

  -- `hm_lookup` on a valid map ends without a fault and keeps the map valid and its nodes; it returns
  -- a node with the key's hash code that `eq` accepts, if there is one, and null exactly if there is
  -- none.
  pub hm_lookup-LookedUp :
      (m : HMap A) → IsValid hcode m → Returns (LookedUp m) (hm_lookup hcode m key eq)
  unfolding hm_lookup
  hm_lookup-LookedUp m v =
      let (m', helps, a) = hm_help_resizing-Advanced hcode m v in
      elim (lookup_both-Located m' a.valid) [
        | absent run z ↦ (
          (none, m'),
          rw (helps, ◌>>=◌, run),
          record {
            valid = a.valid;
            same = a.same;
            answer = missing (omega (arith, a.same wanted));
            few = omega (arith, a.size);
          },
        )
        | in_newer k x run h ↦ (
          (some x, m'),
          rw (helps, ◌>>=◌, run, Hit-node_at m' newer k x h),
          record {
            valid = a.valid;
            same = a.same;
            answer = hit-IsFound m m' newer k x a.same (λ p. omega arith) h;
            few = omega (arith, a.size);
          },
        )
        | in_older k x run z h ↦ (
          (some x, m'),
          rw (helps, ◌>>=◌, run, Hit-node_at m' older k x h),
          record {
            valid = a.valid;
            same = a.same;
            answer = hit-IsFound m m' older k x a.same (λ p. omega arith) h;
            few = omega (arith, a.size);
          },
        )
      ]
