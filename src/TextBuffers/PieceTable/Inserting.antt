-- ===== src/TextBuffers/PieceTable/Inserting.antt =====
-- A new piece among the pieces of a table, and a longer last piece.
use mathlib.Core.List.{append_assoc, append-nil}
use awesome_dsa.Prelude.{
  ℕ, ◌+◌, ◌-◌, ◌≤◌, true, some, List, [], ◌∷◌, ◌++◌, length, length-append, take, drop, length-drop,
  ltb, ◌==◌, arith, ◌≡◌, refl, sym, ◌∙◌, ap, Bool-cases, inl, inr,
}
use awesome_dsa.Prelude.Slices.{take-append_sub, drop-append_sub, take_all, drop_all}
use awesome_dsa.TextBuffers.PieceTable.{
  BufferType, original_buffer, add_buffer, Piece, is_add, last_piece, lengthen_last, insert_piece,
}
use awesome_dsa.TextBuffers.PieceTable.Texts.{
  chars, content, text_of, InRange, length-content, content_front, content_back, text_of_grown,
}

module _ (o a : List ℕ) where
  -- The new piece `q` goes in at `pos`, between two pieces or inside one.
  pub insert_piece_lem :
      (pos s : ℕ) (q : Piece) (ps : List Piece)
      → s ≤ pos
      → InRange o a (q ∷ ps)
      → InRange o a (insert_piece pos s q ps)
        × (text_of o a (insert_piece pos s q ps)
            ≡ take (pos - s) (text_of o a ps) ++ (content o a q ++ drop (pos - s) (text_of o a ps)))
  unfolding insert_piece
  insert_piece_lem pos s q [] le (h, hs) =
      let t = take_all {A = ℕ} [] (pos - s) (omega arith) in
      let d = drop_all {A = ℕ} [] (pos - s) (omega arith) in
      (
        (h, tt),
        sym (
            ap (λ k. k ++ (content o a q ++ drop (pos - s) [])) t ∙ ap (λ k. content o a q ++ k) d),
      )
  insert_piece_lem pos s q (p ∷ ps) le (hq, (h, hs)) =
      let c = content o a p in
      let r = text_of o a ps in
      let size = length-content o a p h in
      elim (Bool-cases (pos == s)) [
        | inl here ↦
            let e : 0 ≡ pos - s = ground arith in
            rw (insert_piece, here)
              ((hq, (h, hs)), ap (λ k. take k (c ++ r) ++ (content o a q ++ drop k (c ++ r))) e)
        | inr off ↦
            let past : ltb s pos ≡ true = ground arith in
            elim (Bool-cases (ltb pos (s + p.length_of))) [
              | inl inside ↦
                  let n = pos - s in
                  let e : n - length c ≡ 0 = ground (arith, size) in
                  let front = content_front o a p n (ground arith) in
                  let back = content_back o a p n in
                  let t =
                    take-append_sub c r n
                    ∙ ap (λ k. take n c ++ take k r) e
                    ∙ append-nil (take n c) in
                  let d = drop-append_sub c r n ∙ ap (λ k. drop n c ++ drop k r) e in
                  rw (insert_piece, off, past, inside)
                    (
                      (ground arith, (hq, (ground arith, hs))),
                      ap
                            (λ k.
                              k
                              ++ (content o a q
                                  ++ (content o a (record p {
                                    start = p.start + n;
                                    length_of = p.length_of - n;
                                  })
                                      ++ r)))
                            front
                          ∙ ap (λ k. take n c ++ (content o a q ++ (k ++ r))) back
                          ∙ sym (
                              ap (λ k. k ++ (content o a q ++ drop n (c ++ r))) t
                              ∙ ap (λ k. take n c ++ (content o a q ++ k)) d),
                    )
              | inr beyond ↦
                  let n = pos - s in
                  let (all, whole) =
                    insert_piece_lem pos (s + p.length_of) q ps (ground arith) (hq, hs) in
                  let e : pos - (s + p.length_of) ≡ n - length c = omega (arith, size) in
                  let all_c = take_all c n (ground (arith, size)) in
                  let no_c = drop_all c n (ground (arith, size)) in
                  let t = take-append_sub c r n ∙ ap (λ k. k ++ take (n - length c) r) all_c in
                  let d = drop-append_sub c r n ∙ ap (λ k. k ++ drop (n - length c) r) no_c in
                  rw (insert_piece, off, past, beyond)
                    (
                      (h, all),
                      ap (λ k. c ++ k) (whole ∙ ap (λ k. take k r ++ (content o a q ++ drop k r)) e)
                          ∙ sym (
                              append_assoc c (take (n - length c) r)
                                (content o a q ++ drop (n - length c) r))
                          ∙ sym (
                              ap (λ k. k ++ (content o a q ++ drop n (c ++ r))) t
                              ∙ ap (λ k. (c ++ take (n - length c) r) ++ (content o a q ++ k)) d),
                    )
            ]
      ]

pub is_add-eq : (k : BufferType) → is_add k ≡ true → k ≡ add_buffer
is_add-eq original_buffer h = absurd (cc (h))
is_add-eq add_buffer h = refl

slice_end :
    (a x : List ℕ) (s n : ℕ)
    → s + n ≡ length a
    → take (n + length x) (drop s (a ++ x)) ≡ take n (drop s a) ++ x
slice_end a x s n e =
    let zero_left : s - length a ≡ 0 = omega (arith, e) in
    let long = length-drop s a in
    ap (take (n + length x)) (drop-append_sub a x s ∙ ap (λ k. drop s a ++ drop k x) zero_left)
    ∙ take_all (drop s a ++ x) (n + length x) (omega (arith, length-append (drop s a) x))
    ∙ ap (λ k. k ++ x) (sym (take_all (drop s a) n (omega arith)))

module _ (o a x : List ℕ) where
  lengthen_add :
      (p : Piece)
      → p.buffer ≡ add_buffer
      → p.start + p.length_of ≡ length a
      → InRange o (a ++ x) (record p { length_of = p.length_of + length x } ∷ [])
        × (content o (a ++ x) (record p { length_of = p.length_of + length x })
            ≡ content o a p ++ x)
  lengthen_add p k e =
      let kind = ap (chars o (a ++ x)) k in
      (
        (omega (arith, ap length kind, length-append a x), tt),
        ap (λ j. take (p.length_of + length x) (drop p.start j)) kind
            ∙ slice_end a x p.start p.length_of e
            ∙ ap (λ j. take p.length_of (drop p.start (chars o a j)) ++ x) (sym k),
      )

  pub lengthen_last_lem :
      (ps : List Piece) (p : Piece)
      → InRange o a ps
      → last_piece ps ≡ some p
      → p.buffer ≡ add_buffer
      → p.start + p.length_of ≡ length a
      → InRange o (a ++ x) (lengthen_last (length x) ps)
        × (text_of o (a ++ x) (lengthen_last (length x) ps) ≡ text_of o a ps ++ x)
  unfolding last_piece lengthen_last
  lengthen_last_lem [] p range last k e = absurd (cc (last))
  lengthen_last_lem (p' ∷ []) p range last k e =
      let same : p' ≡ p = cc (last) in
      let (all, one) = lengthen_add p' (cc (k, same)) (cc (e, same)) in
      (all, append-nil _ ∙ one ∙ ap (λ j. j ++ x) (sym (append-nil (content o a p'))))
  lengthen_last_lem (p' ∷ q ∷ ps) p (h, hs) last k e =
      let (all, whole) = lengthen_last_lem (q ∷ ps) p hs last k e in
      let ((one, end), same) = text_of_grown o a x (p' ∷ []) (h, tt) in
      (
        (one, all),
        ap (λ j. j ++ text_of o (a ++ x) (lengthen_last (length x) (q ∷ ps)))
              (sym (append-nil _) ∙ same ∙ append-nil (content o a p'))
            ∙ ap (λ j. content o a p' ++ j) whole
            ∙ sym (append_assoc (content o a p') (text_of o a (q ∷ ps)) x),
      )
