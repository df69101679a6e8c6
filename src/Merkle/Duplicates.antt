-- ===== src/Merkle/Duplicates.antt =====
-- A level of odd length pairs its last digest with itself, so a repeated last leaf is not seen.
use mathlib.Core.Path.{subst}
use awesome_dsa.Prelude.{
  ℕ, suc, ◌%◌, ◌<◌, List, [], ◌∷◌, ◌++◌, map, length, length-append, length-map, lt→ltb, arith, ◌≡◌,
  refl, sym, ◌∙◌, ap,
}
use awesome_dsa.Merkle.{
  Bytes, Digest, hash_leaf, hash_node, next_level, upper_levels, build, root_of, get_root,
}
use awesome_dsa.Merkle.Levels.{IsTower, length-next_level, upper_levels-IsTower, IsTower-unique}

next_level-repeated :
    (l : List Digest) (d : Digest)
    → length l % 2 ≡ 0
    → next_level (l ++ d ∷ []) ≡ next_level (l ++ d ∷ d ∷ [])
unfolding next_level
next_level-repeated [] d h = refl
next_level-repeated (a ∷ []) d h = absurd (omega arith)
next_level-repeated (a ∷ b ∷ l) d h =
    ap (◌∷◌ (hash_node a b)) (next_level-repeated l d (omega arith))

map-append : (xs ys : List Bytes) → map hash_leaf (xs ++ ys) ≡ map hash_leaf xs ++ map hash_leaf ys
map-append [] ys = refl
map-append (x ∷ xs) ys = ap (◌∷◌ (hash_leaf x)) (map-append xs ys)

-- Above a level of more than one digest the root depends on the next level only.
root_above :
    (n : ℕ) (l : List Digest)
    → 1 < length l
    → root_of (l ∷ upper_levels (suc n) l) ≡ root_of (next_level l ∷ upper_levels n (next_level l))
unfolding upper_levels root_of
root_above n l h = let more = lt→ltb 1 (length l) h in rw (upper_levels, more) refl

root_repeated :
    (l k : List Digest)
    → 2 < length l
    → 2 < length k
    → next_level l ≡ next_level k
    → root_of (l ∷ upper_levels (length l) l) ≡ root_of (k ∷ upper_levels (length k) k)
root_repeated [] k p q e = elim p [ ]
root_repeated (a ∷ l) [] p q e = elim q [ ]
root_repeated (a ∷ l) (b ∷ k) p q e =
    let up =
      upper_levels-IsTower (length l) (next_level (a ∷ l))
        (omega (arith, length-next_level (a ∷ l))) (omega (arith, length-next_level (a ∷ l))) in
    let up' =
      upper_levels-IsTower (length k) (next_level (b ∷ k))
        (omega (arith, length-next_level (b ∷ k))) (omega (arith, length-next_level (b ∷ k))) in
    let same : IsTower (next_level (a ∷ l) ∷ upper_levels (length k) (next_level (b ∷ k))) =
      subst (λ m. IsTower (m ∷ upper_levels (length k) (next_level (b ∷ k)))) (sym e) up' in
    root_above (length l) (a ∷ l) (omega arith)
    ∙ ap (λ m. root_of (next_level (a ∷ l) ∷ m)) (IsTower-unique (next_level (a ∷ l)) _ _ up same)
    ∙ ap (λ m. root_of (m ∷ upper_levels (length k) (next_level (b ∷ k)))) e
    ∙ sym (root_above (length k) (b ∷ k) (omega arith))

-- Repeating the last of an odd number of leaves, three or more, does not change the root.
pub get_root-build_repeated :
    (first : Bytes) (leaves : List Bytes) (last : Bytes)
    → length (first ∷ leaves) % 2 ≡ 0
    → get_root (build (first ∷ leaves ++ last ∷ []))
      ≡ get_root (build (first ∷ leaves ++ last ∷ last ∷ []))
unfolding get_root build
get_root-build_repeated y leaves x h =
    let l = map hash_leaf (y ∷ leaves) in
    let d = hash_leaf x in
    let one = map-append (y ∷ leaves) (x ∷ []) in
    let two = map-append (y ∷ leaves) (x ∷ x ∷ []) in
    let size = length-map (y ∷ leaves) hash_leaf in
    root_repeated (map hash_leaf (y ∷ leaves ++ x ∷ [])) (map hash_leaf (y ∷ leaves ++ x ∷ x ∷ []))
      (omega (arith, ap length one, length-append l (d ∷ []), size))
      (omega (arith, ap length two, length-append l (d ∷ d ∷ []), size))
      (ap next_level one ∙ next_level-repeated l d (omega (arith, size)) ∙ sym (ap next_level two))
