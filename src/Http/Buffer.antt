-- ===== src/Http/Buffer.antt =====
-- The log buffer is a window on the lines.
use mathlib.Core.List.{append-nil, append_assoc, reverse, reverse_aux, reverse-append}
use filling_pilot_edge_rs.Common.{
  ℕ, zero, ◌+◌, min, take, refl, length-drop, suc, ◌-◌, ◌≤◌, ◌≡◌, sym, ap, ◌∙◌, String, true, List,
  [], ◌∷◌, ◌++◌, ltb, length, drop, arith, Bool-cases, inl, inr, length-append,
}
use filling_pilot_edge_rs.Http.{push_line, recent_logs}

-- The buffer after lines, in order.
abbrev pub push_lines : List String → List String → List String
push_lines [] logs = logs
push_lines (line ∷ lines) logs = push_lines lines (push_line line logs)

-- The last thousand of the lines.
abbrev pub last_thousand : List String → List String
last_thousand lines = drop (length lines - 1000) lines

cons_window :
    (line : String) (lines : List String)
    → 1000 ≤ length lines
    → last_thousand (line ∷ lines) ≡ last_thousand lines
cons_window line lines h =
    let one_more : suc (length lines) - 1000 ≡ suc (length lines - 1000) = omega arith in
    ap (λ n. drop n (line ∷ lines)) one_more

pushed_full :
    (line : String) (logs lines : List String)
    → length logs ≤ 1000
    → ltb 1000 (length (logs ++ (line ∷ []))) ≡ true
    → (length (drop 1 (logs ++ (line ∷ []))) ≤ 1000)
      × (last_thousand (drop 1 (logs ++ (line ∷ [])) ++ lines)
          ≡ last_thousand (logs ++ (line ∷ lines)))
pushed_full line [] lines h full = absurd (cc)
pushed_full line (x ∷ logs) lines h full = (
  ground (arith, length-append logs (line ∷ [])),
  ap last_thousand (append_assoc logs (line ∷ []) lines)
      ∙ sym (
          cons_window x (logs ++ (line ∷ lines)) (
            ground
              (arith, full, length-append logs (line ∷ []), length-append logs (line ∷ lines)))),
)

-- A pushed line, in front of the lines that come behind it.
window-push_line :
    (line : String) (logs lines : List String)
    → length logs ≤ 1000
    → (length (push_line line logs) ≤ 1000)
      × (last_thousand (push_line line logs ++ lines) ≡ last_thousand (logs ++ (line ∷ lines)))
unfolding push_line
window-push_line line logs lines h = elim (Bool-cases (ltb 1000 (length (logs ++ (line ∷ []))))) [
  | inl full ↦ rw full (pushed_full line logs lines h full)
  | inr free ↦
      rw free (ground (arith, free), ap last_thousand (append_assoc logs (line ∷ []) lines))
]

window-push_lines :
    (lines logs : List String)
    → length logs ≤ 1000
    → push_lines lines logs ≡ last_thousand (logs ++ lines)
window-push_lines [] logs h =
    let none_dropped : length logs - 1000 ≡ 0 = omega arith in
    rw (append-nil logs) (sym (ap (λ n. drop n logs) none_dropped))
window-push_lines (line ∷ lines) logs h =
    let (short, window) = window-push_line line logs lines h in
    window-push_lines lines (push_line line logs) short ∙ window

-- After any lines, in order, the buffer has the last thousand of them.
pub push_lines-window : (lines : List String) → push_lines lines [] ≡ last_thousand lines
push_lines-window lines = window-push_lines lines [] (omega arith)

length-reverse_aux : (ys r : List String) → length (reverse_aux ys r) ≡ length ys + length r
length-reverse_aux [] r = omega arith
length-reverse_aux (y ∷ ys) r = omega (arith, length-reverse_aux ys (y ∷ r))

take-prefix : (n : ℕ) (xs ys : List String) → n ≤ length xs → take n (xs ++ ys) ≡ take n xs
take-prefix zero xs ys h = refl
take-prefix (suc n) [] ys h = absurd (omega (arith, h))
take-prefix (suc n) (x ∷ xs) ys h = ap (◌∷◌ x) (take-prefix n xs ys (omega (arith, h)))

take-drop : (k : ℕ) (xs : List String) → take k xs ++ drop k xs ≡ xs
take-drop zero xs = refl
take-drop (suc k) [] = refl
take-drop (suc k) (x ∷ xs) = ap (◌∷◌ x) (take-drop k xs)

-- Dropping old lines does not change the newest ones.
newest-drop :
    (n k : ℕ) (xs : List String)
    → n ≤ length xs - k
    → take n (reverse (drop k xs)) ≡ take n (reverse xs)
newest-drop n k xs h =
    let long : n ≤ length (reverse (drop k xs)) =
      omega (arith, h, length-reverse_aux (drop k xs) [], length-drop k xs) in
    sym (take-prefix n (reverse (drop k xs)) (reverse (take k xs)) long)
    ∙ ap (take n) (sym (reverse-append (take k xs) (drop k xs)) ∙ ap reverse (take-drop k xs))

-- After any lines, in order, `/log` answers with the newest hundred of them, the newest first, and with
-- the number of the lines, up to a thousand.
pub recent_logs-newest :
    (lines : List String)
    → recent_logs (push_lines lines []) ≡ (take 100 (reverse lines), min 1000 (length lines))
unfolding recent_logs
recent_logs-newest lines =
    let k = length lines - 1000 in
    let count : length (drop k lines) ≡ min 1000 (length lines) =
      omega (arith, length-drop k lines) in
    let newest : take 100 (reverse (drop k lines)) ≡ take 100 (reverse lines) =
      elim (Bool-cases (ltb (length lines) 1000)) [
        | inl few ↦
            let nothing : length lines - 1000 ≡ 0 = ground (arith, few) in
            ap (λ i. take 100 (reverse (drop i lines))) nothing
        | inr many ↦ newest-drop 100 k lines (ground (arith, many))
      ] in
    rw (push_lines-window lines, newest, count) refl
