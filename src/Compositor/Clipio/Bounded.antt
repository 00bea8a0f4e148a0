-- ===== src/Compositor/Clipio/Bounded.antt =====
-- The bounded transfers, against what the peer sent or was to get.
use veracage.Base.{
  ℕ, zero, suc, ◌-◌, ◌≤◌, List, [], ◌∷◌, ◌++◌, false, ltb, length, take, append-nil, append_assoc,
  length-append, length-take-le, arith, ◌≡◌, refl, ◌∙◌, ap, sym, Bool-cases, inl, inr,
}
use veracage.Compositor.Clipio.{
  max_clip_bytes, ReadRound, not_ready, would_block, eof, read_failed, read_bytes, read_onto,
  read_bounded, WriteRound, busy, again, stopped, took, drop, write_from, write_bounded,
}

-- What the peer sent up to its end, an error or the end of the budget.
unfoldable pub sent : List ReadRound → List ℕ
sent [] = []
sent (not_ready ∷ rounds) = sent rounds
sent (would_block ∷ rounds) = sent rounds
sent (eof ∷ rounds) = []
sent (read_failed ∷ rounds) = []
sent (read_bytes b bs ∷ rounds) = b ∷ bs ++ sent rounds

take-all : (n : ℕ) (xs : List ℕ) → length xs ≤ n → take n xs ≡ xs
take-all zero [] h = refl
take-all zero (x ∷ xs) h = ground arith
take-all (suc n) [] h = refl
take-all (suc n) (x ∷ xs) h = ap (λ r. x ∷ r) (take-all n xs (omega arith))

minus_suc : (n m : ℕ) → n - m ≡ suc n - suc m
minus_suc n m = omega arith

take-append : (n : ℕ) (xs ys : List ℕ) → take n (xs ++ ys) ≡ take n xs ++ take (n - length xs) ys
take-append zero [] ys = ground arith
take-append zero (x ∷ xs) ys = ground arith
take-append (suc n) [] ys = ground arith
take-append (suc n) (x ∷ xs) ys =
    ap (λ (r : List ℕ). x ∷ r)
      (take-append n xs ys ∙ ap (λ k. take n xs ++ take k ys) (minus_suc n (length xs)))

take-full :
    (limit : ℕ) (out ys : List ℕ)
    → length out ≤ limit
    → ltb (length out) limit ≡ false
    → take limit (out ++ ys) ≡ out
take-full zero [] ys h e = refl
take-full zero (x ∷ out) ys h e = ground arith
take-full (suc n) [] ys h e = ground arith
take-full (suc n) (x ∷ out) ys h e =
    ap (λ (r : List ℕ). x ∷ r) (take-full n out ys (omega arith) (ground arith))

take-capped : (k : ℕ) (xs ys : List ℕ) → take k (take k xs ++ ys) ≡ take k (xs ++ ys)
take-capped zero [] ys = ground arith
take-capped zero (x ∷ xs) ys = ground arith
take-capped (suc k) [] ys = refl
take-capped (suc k) (x ∷ xs) ys = ap (λ (r : List ℕ). x ∷ r) (take-capped k xs ys)

within :
    (limit : ℕ) (out xs : List ℕ)
    → length out ≤ limit
    → length (out ++ take (limit - length out) xs) ≤ limit
within limit out xs h =
    let k = limit - length out in
    let a = length-append out (take k xs) in let b = length-take-le k xs in rw a (omega arith)

read_onto-prefix :
    (limit : ℕ) (out : List ℕ) (rounds : List ReadRound)
    → length out ≤ limit
    → read_onto limit out rounds ≡ take limit (out ++ sent rounds)
unfolding read_onto sent
read_onto-prefix limit out [] h =
    sym (ap (λ (r : List ℕ). take limit r) (append-nil out) ∙ take-all limit out h)
read_onto-prefix limit out (eof ∷ rounds) h =
    sym (ap (λ (r : List ℕ). take limit r) (append-nil out) ∙ take-all limit out h)
read_onto-prefix limit out (read_failed ∷ rounds) h =
    sym (ap (λ (r : List ℕ). take limit r) (append-nil out) ∙ take-all limit out h)
read_onto-prefix limit out (not_ready ∷ rounds) h = elim (Bool-cases (ltb (length out) limit)) [
  | inl e ↦ rw (e, read_onto) (read_onto-prefix limit out rounds h)
  | inr e ↦ rw (e, read_onto) (sym (take-full limit out (sent rounds) h e))
]
read_onto-prefix limit out (would_block ∷ rounds) h = elim (Bool-cases (ltb (length out) limit)) [
  | inl e ↦ rw (e, read_onto) (read_onto-prefix limit out rounds h)
  | inr e ↦ rw (e, read_onto) (sym (take-full limit out (sent rounds) h e))
]
read_onto-prefix limit out (read_bytes b bs ∷ rounds) h =
    elim (Bool-cases (ltb (length out) limit)) [
      | inl e ↦
          let k = limit - length out in
          rw (e, read_onto)
            (read_onto-prefix limit (out ++ take k (b ∷ bs)) rounds (within limit out (b ∷ bs) h)
              ∙ ap (λ (r : List ℕ). take limit r) (append_assoc out (take k (b ∷ bs)) (sent rounds))
              ∙ take-append limit out (take k (b ∷ bs) ++ sent rounds)
              ∙ ap (λ (r : List ℕ). take limit out ++ r) (take-capped k (b ∷ bs) (sent rounds))
              ∙ sym (take-append limit out (b ∷ bs ++ sent rounds)))
      | inr e ↦ rw (e, read_onto) (sym (take-full limit out (b ∷ bs ++ sent rounds) h e))
    ]

-- A bounded read returns what the peer sent up to its end, an error or the end of the budget, cut
-- off at the limit, in whatever pieces it came; so it never holds more than the limit.
pub read_bounded-prefix :
    (rounds : List ReadRound)
    → (read_bounded rounds ≡ take max_clip_bytes (sent rounds))
      × (length (read_bounded rounds) ≤ max_clip_bytes)
unfolding read_bounded
read_bounded-prefix rounds =
    let e = read_onto-prefix max_clip_bytes [] rounds (omega arith) in
    (e, rw e (length-take-le max_clip_bytes (sent rounds)))

take-drop : (n : ℕ) (xs : List ℕ) → take n xs ++ drop n xs ≡ xs
unfolding drop
take-drop zero [] = refl
take-drop zero (x ∷ xs) = refl
take-drop (suc n) [] = refl
take-drop (suc n) (x ∷ xs) = ap (λ (r : List ℕ). x ∷ r) (take-drop n xs)

write_from-prefix :
    (rest : List ℕ) (rounds : List WriteRound)
    → (unsent : List ℕ) × (write_from rest rounds ++ unsent ≡ rest)
unfolding write_from
write_from-prefix rest [] = (rest, refl)
write_from-prefix rest (busy ∷ rounds) = write_from-prefix rest rounds
write_from-prefix rest (again ∷ rounds) = write_from-prefix rest rounds
write_from-prefix rest (stopped ∷ rounds) = (rest, refl)
write_from-prefix rest (took n ∷ rounds) =
    let r = write_from-prefix (drop (suc n) rest) rounds in
    let given = write_from (drop (suc n) rest) rounds in
    (
      r.0,
      append_assoc (take (suc n) rest) given r.0
          ∙ ap (λ (s : List ℕ). take (suc n) rest ++ s) r.1
          ∙ take-drop (suc n) rest,
    )

-- A bounded write gives the peer a prefix of the data cut off at the limit, whatever sizes its
-- writes took: nothing is skipped, repeated or reordered.
pub write_bounded-prefix :
    (data_bytes : List ℕ) (rounds : List WriteRound)
    → (unsent : List ℕ) × (write_bounded data_bytes rounds ++ unsent
        ≡ take max_clip_bytes data_bytes)
unfolding write_bounded
write_bounded-prefix data_bytes rounds = write_from-prefix (take max_clip_bytes data_bytes) rounds
