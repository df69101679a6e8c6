-- ===== src/TextBuffers/PieceTable/Erasing.antt =====
-- What the loop of `erase` keeps of the pieces.
use mathlib.Core.List.{append_assoc, append-nil}
use awesome_dsa.Prelude.{
  ℕ, ◌+◌, ◌-◌, ◌≤◌, ◌<◌, List, [], ◌∷◌, ◌++◌, length, take, drop, ltb, leb, arith, ◌≡◌, sym, ◌∙◌,
  ap, if◌then◌else◌, Bool-cases, inl, inr,
}
use awesome_dsa.Prelude.Slices.{take-append_sub, drop-append_sub, take_all, drop_all}
use awesome_dsa.TextBuffers.PieceTable.{Piece, keep_piece, erase_pieces}
use awesome_dsa.TextBuffers.PieceTable.Texts.{
  content, text_of, InRange, length-content, text_of-append, InRange-append, content_front,
  content_back,
}

-- The two ends of what `erase` leaves of a text in two parts.
both_ends :
    (c r : List ℕ) (k m : ℕ)
    → k ≤ m
    → (take k c ++ drop m c) ++ (take (k - length c) r ++ drop (m - length c) r)
      ≡ take k (c ++ r) ++ drop m (c ++ r)
both_ends c r k m h =
    let w = drop (m - length c) r in
    let swap : drop m c ++ take (k - length c) r ≡ take (k - length c) r ++ drop m c =
      elim (Bool-cases (leb k (length c))) [
        | inl short ↦
            let e : k - length c ≡ 0 = ground arith in
            ap (λ j. drop m c ++ take j r) e
            ∙ append-nil (drop m c)
            ∙ sym (ap (λ j. take j r ++ drop m c) e)
        | inr long ↦
            let e = drop_all c m (ground arith) in
            ap (λ j. j ++ take (k - length c) r) e
            ∙ sym (append-nil (take (k - length c) r))
            ∙ sym (ap (λ j. take (k - length c) r ++ j) e)
      ] in
    append_assoc (take k c) (drop m c) (take (k - length c) r ++ w)
    ∙ ap (λ j. take k c ++ j)
        (sym (append_assoc (drop m c) (take (k - length c) r) w)
          ∙ ap (λ j. j ++ w) swap
          ∙ append_assoc (take (k - length c) r) (drop m c) w)
    ∙ sym (append_assoc (take k c) (take (k - length c) r) (drop m c ++ w))
    ∙ ap (λ j. j ++ (drop m c ++ w)) (sym (take-append_sub c r k))
    ∙ ap (λ j. take k (c ++ r) ++ j) (sym (drop-append_sub c r m))

module _ (o a : List ℕ) where
  -- The part of a piece before the region that goes, and the part after it.
  abbrev left_part : ℕ → ℕ → Piece → List Piece
  left_part pos p_start p =
      if ltb p_start pos then record p { length_of = pos - p_start } ∷ [] else []

  abbrev right_part : ℕ → ℕ → Piece → List Piece
  right_part end p_start p =
      if ltb end (p_start + p.length_of)
      then record p { start = p.start + (end - p_start); length_of = p.length_of - (end - p_start) }
        ∷ []
      else []

  left_part_lem :
      (pos s : ℕ) (p : Piece)
      → InRange o a (p ∷ [])
      → pos < s + p.length_of
      → InRange o a (left_part pos s p)
        × (text_of o a (left_part pos s p) ≡ take (pos - s) (content o a p))
  left_part_lem pos s p (h, hs) less = elim (Bool-cases (ltb s pos)) [
    | inl in_it ↦
        rw (left_part, in_it)
          ((omega arith, tt), append-nil _ ∙ content_front o a p (pos - s) (omega arith))
    | inr before ↦
        let e : 0 ≡ pos - s = ground arith in
        rw (left_part, before) (tt, ap (λ k. take k (content o a p)) e)
  ]

  right_part_lem :
      (end s : ℕ) (p : Piece)
      → InRange o a (p ∷ [])
      → s < end
      → InRange o a (right_part end s p)
        × (text_of o a (right_part end s p) ≡ drop (end - s) (content o a p))
  right_part_lem end s p (h, hs) less = elim (Bool-cases (ltb end (s + p.length_of))) [
    | inl in_it ↦
        rw (right_part, in_it) ((ground arith, tt), append-nil _ ∙ content_back o a p (end - s))
    | inr after ↦
        rw (right_part, after)
          (tt, sym (drop_all (content o a p) (end - s) (ground (arith, length-content o a p h))))
  ]

  keep_piece_lem :
      (pos len s : ℕ) (p : Piece)
      → InRange o a (p ∷ [])
      → InRange o a (keep_piece pos len s p)
        × (text_of o a (keep_piece pos len s p)
            ≡ take (pos - s) (content o a p) ++ drop (pos + len - s) (content o a p))
  unfolding keep_piece
  keep_piece_lem pos len s p h =
      let size = length-content o a p h.0 in
      let c = content o a p in
      elim (Bool-cases (leb (s + p.length_of) pos)) [
        | inl before ↦
            let all = take_all c (pos - s) (ground (arith, size)) in
            let none_left = drop_all c (pos + len - s) (ground (arith, size)) in
            rw (keep_piece, before)
              (h, ap (λ k. k ++ []) (sym all) ∙ ap (λ k. take (pos - s) c ++ k) (sym none_left))
        | inr later ↦ elim (Bool-cases (leb (pos + len) s)) [
          | inl after ↦
              let front : 0 ≡ pos - s = ground arith in
              let back : 0 ≡ pos + len - s = ground arith in
              rw (keep_piece, later, after)
                (
                  h,
                  append-nil c
                      ∙ ap (λ k. take k c ++ c) front
                      ∙ ap (λ k. take (pos - s) c ++ drop k c) back,
                )
          | inr inside ↦
              let (left_in, left) = left_part_lem pos s p h (ground arith) in
              let (right_in, right) = right_part_lem (pos + len) s p h (ground arith) in
              rw (keep_piece, later, inside)
                (
                  InRange-append o a (left_part pos s p) (right_part (pos + len) s p) left_in
                      right_in,
                  text_of-append o a (left_part pos s p) (right_part (pos + len) s p)
                      ∙ ap (λ k. k ++ text_of o a (right_part (pos + len) s p)) left
                      ∙ ap (λ k. take (pos - s) c ++ k) right,
                )
        ]
      ]

  pub erase_pieces_lem :
      (pos len s : ℕ) (ps acc : List Piece)
      → InRange o a ps
      → InRange o a acc
      → InRange o a (erase_pieces pos len s ps acc)
        × (text_of o a (erase_pieces pos len s ps acc)
            ≡ text_of o a acc
              ++ (take (pos - s) (text_of o a ps) ++ drop (pos + len - s) (text_of o a ps)))
  unfolding erase_pieces
  erase_pieces_lem pos len s [] acc h g =
      let t = take_all {A = ℕ} [] (pos - s) (omega arith) in
      let d = drop_all {A = ℕ} [] (pos + len - s) (omega arith) in
      (
        g,
        sym (
            ap (λ k. text_of o a acc ++ (k ++ drop (pos + len - s) [])) t
            ∙ ap (λ k. text_of o a acc ++ k) d
            ∙ append-nil (text_of o a acc)),
      )
  erase_pieces_lem pos len s (p ∷ ps) acc (h, hs) g =
      let c = content o a p in
      let r = text_of o a ps in
      let size = length-content o a p h in
      let kept = keep_piece pos len s p in
      let (kept_in, kept_text) = keep_piece_lem pos len s p (h, tt) in
      let (all, whole) =
        erase_pieces_lem pos len (s + p.length_of) ps (acc ++ kept) hs
          (InRange-append o a acc kept g kept_in) in
      let front : pos - (s + p.length_of) ≡ pos - s - length c = omega (arith, size) in
      let back : pos + len - (s + p.length_of) ≡ pos + len - s - length c = omega (arith, size) in
      let rest_of =
        ap (λ k. take k r ++ drop (pos + len - (s + p.length_of)) r) front
        ∙ ap (λ k. take (pos - s - length c) r ++ drop k r) back in
      (
        all,
        whole
            ∙ ap
                (λ k.
                  k ++ (take (pos - (s + p.length_of)) r ++ drop (pos + len - (s + p.length_of)) r))
                (text_of-append o a acc kept)
            ∙ append_assoc (text_of o a acc) (text_of o a kept) _
            ∙ ap (λ k. text_of o a acc ++ k)
                (ap
                    (λ k.
                      k
                      ++ (take (pos - (s + p.length_of)) r
                          ++ drop (pos + len - (s + p.length_of)) r))
                    kept_text
                  ∙ ap (λ k. (take (pos - s) c ++ drop (pos + len - s) c) ++ k) rest_of
                  ∙ both_ends c r (pos - s) (pos + len - s) (omega arith)),
      )
