-- ===== src/Core/VfsPath/Escape.antt =====
-- Which texts `VfsPath::new` refuses, and what it keeps of the others: a description that reads the
-- words from the back and has no vector.
use krystallos.Common.{
  ℕ, zero, suc, ◌+◌, ◌-◌, min, List, [], ◌∷◌, ◌++◌, ◌≡◌, refl, sym, ap, ◌∙◌, inl, inr, true, false,
  arith, Text, Bool-cases, append-nil, append_assoc, text_eq, ◌==◌, if◌then◌else◌, length,
  length-append, take, take_all, take-take, take-append_le, ltb, ltb→lt, lt→ltb,
}
use krystallos.Core.Error.{Result, ok, err, ◌>>=◌, invalid_path}
use krystallos.Core.VfsPath.{
  is_separator, dotdot, escapes_reason, split, is_skipped, pop, but_last, pop_or_escape, step,
  collect, of_segments, new,
}

-- How many `..` find no name in front of them to cancel.
pub surplus : List Text → ℕ
surplus [] = 0
surplus (w ∷ ws) =
    let after = surplus ws in
    if is_skipped w then after else if text_eq w dotdot then after + 1 else after - 1

-- The names that no `..` behind them cancels.
pub survivors : List Text → List Text
unfolding surplus
survivors [] = []
survivors (w ∷ ws) =
    let rest = survivors ws in
    if is_skipped w
    then rest
    else if text_eq w dotdot
    then rest
    else if surplus ws == 0
    then w ∷ rest
    else rest

but_last_lem : (s : Text) (ss : List Text) → but_last s ss ≡ take (length ss) (s ∷ ss)
unfolding but_last
but_last_lem s [] = refl
but_last_lem s (t ∷ ts) = ap (λ r. s ∷ r) (but_last_lem t ts)

length-but_last : (s : Text) (ss : List Text) → length (but_last s ss) ≡ length ss
unfolding but_last
length-but_last s [] = refl
length-but_last s (t ∷ ts) = ap suc (length-but_last t ts)

-- What the loop returns, started with the vector `ss`.
abbrev outcome : Text → List Text → ℕ → List Text → Result (List Text)
outcome raw ss n out =
    if ltb (length ss) n
    then err (invalid_path raw escapes_reason)
    else ok (take (length ss - n) ss ++ out)

outcome-cons :
    (raw : Text) (s : Text) (ss : List Text) (n : ℕ) (out : List Text)
    → outcome raw (but_last s ss) n out ≡ outcome raw (s ∷ ss) (n + 1) out
outcome-cons raw s ss n out = elim (Bool-cases (ltb (length ss) n)) [
  | inl h ↦ rw (length-but_last, h, lt→ltb (length (s ∷ ss)) (n + 1) (omega (arith, ltb→lt _ _ h)))
  | inr h ↦
      let e : ltb (length (s ∷ ss)) (n + 1) ≡ false = ground (arith, h) in
      rw (length-but_last, h, e, but_last_lem, take-take)
        (ap (λ k. ok (take k (s ∷ ss) ++ out)) {x = min (length ss - n) (length ss)} (omega arith))
]

collect-pop :
    (raw : Text) (ss ws : List Text)
    → ((ts : List Text) → collect raw ts ws ≡ outcome raw ts (surplus ws) (survivors ws))
    → (pop_or_escape raw (pop ss) >>= λ next. collect raw next ws)
      ≡ outcome raw ss (surplus ws + 1) (survivors ws)
unfolding pop_or_escape pop
collect-pop raw [] ws ih = rw (lt→ltb 0 (surplus ws + 1) (omega arith))
collect-pop raw (s ∷ ss) ws ih = ih (but_last s ss) ∙ outcome-cons raw s ss _ _

ltb_zero : (n : ℕ) → ltb n 0 ≡ false
ltb_zero n = ground arith

outcome_zero :
    (raw : Text) (ss : List Text) (out : List Text) → outcome raw ss 0 out ≡ ok (ss ++ out)
outcome_zero raw ss out =
    rw (ltb_zero (length ss)) (ap (λ l. ok (l ++ out)) (take_all (length ss - 0) ss (omega arith)))

pred_suc : (n : ℕ) → suc n - 1 ≡ n
pred_suc n = omega arith

suc_ne_zero : (n : ℕ) → (suc n == 0) ≡ false
suc_ne_zero n = ground arith

outcome-snoc :
    (raw : Text) (w : Text) (ss : List Text) (n : ℕ) (out : List Text)
    → outcome raw (ss ++ w ∷ []) n out ≡ outcome raw ss (n - 1) (if n == 0 then w ∷ out else out)
outcome-snoc raw w ss zero out =
    outcome_zero raw (ss ++ w ∷ []) out
    ∙ ap ok (append_assoc ss (w ∷ []) out)
    ∙ sym (outcome_zero raw ss (w ∷ out))
outcome-snoc raw w ss (suc n) out = elim (Bool-cases (ltb (length ss) n)) [
  | inl h ↦
      let e : ltb (length (ss ++ w ∷ [])) (suc n) ≡ true =
        lt→ltb _ _ (omega (arith, length-append ss (w ∷ []), ltb→lt _ _ h)) in
      rw (e, pred_suc n, h)
  | inr h ↦
      let g : length (ss ++ w ∷ []) ≡ length ss + 1 = length-append ss (w ∷ []) in
      let e : ltb (length (ss ++ w ∷ [])) (suc n) ≡ false = ground (arith, h, g) in
      let d : length ss + 1 - suc n ≡ length ss - n = omega arith in
      rw (e, pred_suc n, suc_ne_zero n, h, g, d)
        (ap (λ l. ok (l ++ out)) (take-append_le _ ss _ (omega arith)))
]

collect_lem :
    (raw : Text) (ss ws : List Text)
    → collect raw ss ws ≡ outcome raw ss (surplus ws) (survivors ws)
unfolding collect survivors step
collect_lem raw ss [] = sym (outcome_zero raw ss [] ∙ ap ok (append-nil ss))
collect_lem raw ss (w ∷ ws) = elim (Bool-cases (is_skipped w)) [
  | inl k ↦ rw k (collect_lem raw ss ws)
  | inr k ↦ elim (Bool-cases (text_eq w dotdot)) [
    | inl d ↦ rw (k, d) (collect-pop raw ss ws (λ ts. collect_lem raw ts ws))
    | inr d ↦
        rw (k, d)
          (collect_lem raw (ss ++ w ∷ []) ws ∙ outcome-snoc raw w ss (surplus ws) (survivors ws))
  ]
]

outcome-nil :
    (raw : Text) (n : ℕ) (out : List Text)
    → (outcome raw [] n out >>= λ ss. ok (of_segments ss))
      ≡ (if ltb 0 n then err (invalid_path raw escapes_reason) else ok (of_segments out))
outcome-nil raw zero out = refl
outcome-nil raw (suc n) out = rw (lt→ltb 0 (suc n) (omega arith))

-- `new` refuses a text exactly when some `..` finds no name to cancel, reading from the front, and
-- then with the text and the reason; otherwise the path holds the names that no `..` cancels.
pub new_lem :
    (raw : Text)
    → let words = split is_separator raw in
      new raw ≡ (
        if ltb 0 (surplus words)
        then err (invalid_path raw escapes_reason)
        else ok (of_segments (survivors words)))
unfolding new
new_lem raw =
    rw (collect_lem raw [] (split is_separator raw))
      (outcome-nil raw (surplus (split is_separator raw)) (survivors (split is_separator raw)))
