-- ===== src/Bst/Search.antt =====
-- What a search finds after insertion and removal, and what the neighbour searches find.
use awesome_dsa.Prelude.{Bool, true, false, arith, ◌≡◌, refl, if◌then◌else◌}
use awesome_dsa.Prelude.Order.{Order, ◌≺◌, less_asymm, less_ne, less_ne_rev}
use awesome_dsa.Bst.{Node, leaf, node, insert_from, remove_found, remove_node, contains_from}
use awesome_dsa.Bst.Sorted.{All-imp, least, leftmost_lem, All-least, Below, Above, IsOrdered}

module _ {ℓ} {K : Type ℓ} ⦃o : Order K⦄ where
  pub contains_from-insert_from :
      (t : Node K) (q p : K)
      → contains_from (insert_from t q).0 p ≡ (if o.equal q p then true else contains_from t p)
  unfolding insert_from contains_from
  contains_from-insert_from leaf q p =
      ground (arith, o.eq_of_equal q p, o.eq_of_equal p q, o.equal_refl p)
  contains_from-insert_from (node l k r) q p = ground (
    arith,
    contains_from-insert_from l q p,
    contains_from-insert_from r q p,
    o.eq_of_equal q k,
    o.eq_of_equal p k,
    o.eq_of_equal q p,
    o.equal_refl p,
    o.equal_refl q,
  )

  -- The flag of an insertion says that the key was not there.
  pub added_lem :
      (t : Node K) (q : K) → (insert_from t q).1 ≡ (if contains_from t q then false else true)
  unfolding insert_from contains_from
  added_lem leaf q = refl
  added_lem (node l k r) q = ground (arith, added_lem l q, added_lem r q)

  contains-Below : (t : Node K) (q : K) → Below q t → contains_from t q ≡ false
  unfolding contains_from
  contains-Below leaf q b = refl
  contains-Below (node l k r) q b =
      ground (arith, less_asymm k q, less_ne_rev k q, contains-Below r q b.2)

  contains-Above : (t : Node K) (q : K) → Above q t → contains_from t q ≡ false
  unfolding contains_from
  contains-Above leaf q b = refl
  contains-Above (node l k r) q b = ground (arith, less_ne q k, contains-Above l q b.0)

  contains_beyond : (t : Node K) (k p : K) → Below k t → k ≺ p → contains_from t p ≡ false
  contains_beyond t k p b h = contains-Below t p (All-imp (λ x c. o.less_trans x k p c h) t b)

  contains_under : (t : Node K) (k p : K) → Above k t → p ≺ k → contains_from t p ≡ false
  contains_under t k p b h = contains-Above t p (All-imp (λ x c. o.less_trans p k x h c) t b)

  pub contains_least :
      (l : Node K) (k : K) (r : Node K)
      → IsOrdered (node l k r)
      → contains_from (node l k r) (least l k) ≡ true
  unfolding contains_from least
  contains_least leaf k r s = rw (o.equal_refl k)
  contains_least (node l x n) k r s =
      let low = All-least (λ y. y ≺ k) l x s.0.0 s.0.1 in
      rw (less_ne (least l x) k low, low) (contains_least l x n s.2)

  contains_under_least :
      (l : Node K) (k : K) (r : Node K) (p : K)
      → IsOrdered (node l k r)
      → p ≺ least l k
      → contains_from (node l k r) p ≡ false
  unfolding contains_from least
  contains_under_least leaf k r p s lt = rw (less_ne p k lt, lt)
  contains_under_least (node l x n) k r p s lt =
      let low = All-least (λ y. y ≺ k) l x s.0.0 s.0.1 in
      let under = o.less_trans p (least l x) k lt low in
      rw (less_ne p k under, under) (contains_under_least l x n p s.2 lt)

  abbrev Removed : Node K → K → K → Bool → Type 0
  Removed t q p b =
      contains_from (remove_node t q b).0 p ≡ (if o.equal q p then false else contains_from t p)

  contains-remove_found :
      (l : Node K) (k : K) (r : Node K) (p : K)
      → IsOrdered (node l k r)
      → ((q : K) → Removed r q p true)
      → contains_from (remove_found l r (λ s. remove_node r s true)).0 p
        ≡ (if o.equal k p then false else contains_from (node l k r) p)
  unfolding remove_found contains_from
  contains-remove_found leaf k r p s d = ground (
    arith,
    o.eq_of_equal k p,
    o.eq_of_equal p k,
    o.equal_refl p,
    contains_under r k p s.1,
    contains-Above r k s.1,
  )
  contains-remove_found (node ll lk lr) k leaf p s d = ground (
    arith,
    o.eq_of_equal k p,
    o.eq_of_equal p k,
    o.equal_refl p,
    o.less_connex p k,
    contains_beyond (node ll lk lr) k p s.0,
    contains-Below (node ll lk lr) k s.0,
  )
  contains-remove_found (node ll lk lr) k (node rl rk rr) p s d =
      let m = least rl rk in
      let l = node ll lk lr in
      let r = node rl rk rr in
      rw (leftmost_lem rl rk rr, remove_found)
        (moved l k rl rk rr p s (All-least (λ y. k ≺ y) rl rk s.1.0 s.1.1) (d m))
    where
      moved :
          (l : Node K) (k : K) (rl : Node K) (rk : K) (rr : Node K) (p : K)
          → IsOrdered (node l k (node rl rk rr))
          → k ≺ least rl rk
          → Removed (node rl rk rr) (least rl rk) p true
          → contains_from
              (node l (least rl rk) (remove_node (node rl rk rr) (least rl rk) true).0)
              p
            ≡ (if o.equal k p then false else contains_from (node l k (node rl rk rr)) p)
      moved l k rl rk rr p s up ih =
          let m = least rl rk in
          ground (
            arith,
            up,
            ih,
            o.eq_of_equal k p,
            o.eq_of_equal p k,
            o.eq_of_equal p m,
            o.eq_of_equal m p,
            o.equal_refl p,
            o.less_trans p k m,
            o.less_connex p k,
            o.less_connex p m,
            less_asymm p k,
            less_ne k m up,
            contains-Below l k s.0,
            contains_beyond l k p s.0,
            contains_under_least rl rk rr p s.3,
            contains_least rl rk rr s.3,
          )

  pub contains_from-remove_node : (t : Node K) (q p : K) (b : Bool) → IsOrdered t → Removed t q p b
  unfolding remove_node contains_from
  contains_from-remove_node leaf q p b s = ground arith
  contains_from-remove_node (node l k r) q p b s = ground (
    arith,
    contains_from-remove_node l q p b s.2,
    contains_from-remove_node r q p b s.3,
    contains-remove_found l k r p s (λ y. contains_from-remove_node r y p true s.3),
    o.eq_of_equal q p,
    o.eq_of_equal p k,
    o.eq_of_equal p q,
    o.less_connex q k,
    less_ne q k,
    less_ne_rev k q,
    o.equal_refl q,
  )
