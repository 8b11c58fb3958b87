-- ===== src/Versions/Parse/Numbers.antt =====
-- The decimal digits of a number, read and printed.
use v8app.Base.{
  ℕ, zero, suc, ◌+◌, ◌-◌, ◌*◌, ◌/◌, ◌%◌, ◌≡◌, ◌≤◌, ◌<◌, refl, ap, ◌∙◌, true, List, [], ◌∷◌, ◌++◌,
  arith, ◌==◌, length, append-nil, Bool-cases, inl, inr, ==_iff,
}
use v8app.Versions.{all_digits, value_from, digits, to_string}
use v8app.Versions.Parse.{is_core}

digits-step :
    (r n d : ℕ) (tail : List ℕ)
    → 1 ≤ n
    → d < 10
    → digits (suc r) (n * 10 + d) tail ≡ digits r n ((b'0' + d) ∷ tail)
unfolding digits
digits-step r n d tail h k =
    let e : (n * 10 + d) / 10 ≡ n = omega arith in
    let f : (n * 10 + d) % 10 ≡ d = omega arith in ground (arith, e, f)

-- Printing undoes the reading of further digits behind a positive number.
digits-value_from :
    (cs : List ℕ) (r n : ℕ) (tail : List ℕ)
    → 1 ≤ n
    → all_digits cs ≡ true
    → digits (r + length cs) (value_from n cs) tail ≡ digits r n (cs ++ tail)
unfolding value_from
digits-value_from [] r n tail h k = ap (λ x. digits x n tail) (omega arith)
digits-value_from (c ∷ cs) r n tail h k =
    let d = c - b'0' in
    let e : r + suc (length cs) ≡ suc r + length cs = omega arith in
    let small : d < 10 = ground arith in
    let rest : all_digits cs ≡ true = ground arith in
    let back : b'0' + d ≡ c = ground arith in
    rw e (
      digits-value_from cs (suc r) (n * 10 + d) tail (omega arith) rest
      ∙ digits-step r n d (cs ++ tail) h small
      ∙ ap (λ x. digits r n (x ∷ (cs ++ tail))) back)

value_from-grows : (cs : List ℕ) (n : ℕ) → 1 ≤ n → n + length cs ≤ value_from n cs
unfolding value_from
value_from-grows [] n h = omega arith
value_from-grows (c ∷ cs) n h = omega (arith, value_from-grows cs (n * 10 + (c - b'0')))

digits-small : (r n : ℕ) (tail : List ℕ) → 1 ≤ r → n < 10 → digits r n tail ≡ (b'0' + n) ∷ tail
unfolding digits
digits-small zero n tail h k = absurd (omega arith)
digits-small (suc r) n tail h k = ground arith

-- A number that does not begin with a zero.
to_string-positive :
    (c : ℕ) (cs : List ℕ)
    → b'0' < c
    → c ≤ b'9'
    → all_digits cs ≡ true
    → to_string (value_from (c - b'0') cs) ≡ c ∷ cs
unfolding to_string
to_string-positive c cs low high all =
    let d = c - b'0' in
    let v = value_from d cs in
    let g = value_from-grows cs d (omega arith) in
    let r = v + 1 - length cs in
    let e : v + 1 ≡ r + length cs = omega arith in
    let back : b'0' + d ≡ c = omega arith in
    ap (λ x. digits x v []) e
    ∙ digits-value_from cs r d [] (omega arith) all
    ∙ digits-small r d (cs ++ []) (omega arith) (omega arith)
    ∙ ap (λ x. x ∷ (cs ++ [])) back
    ∙ ap (λ l. c ∷ l) (append-nil cs)

first_digit : (c : ℕ) (cs : List ℕ) → value_from 0 (c ∷ cs) ≡ value_from (c - b'0') cs
unfolding value_from
first_digit c cs = ap (λ n. value_from n cs) (omega arith)

to_string-zero : (c : ℕ) → c ≡ b'0' → to_string (value_from (c - b'0') []) ≡ c ∷ []
unfolding to_string value_from digits
to_string-zero c e = rw e refl

-- Printing the value of a number that the regular expression takes gives the number back.
pub to_string-value : (t : List ℕ) → is_core t ≡ true → to_string (value_from 0 t) ≡ t
to_string-value [] h = cc
to_string-value (c ∷ []) h = ap to_string (first_digit c []) ∙ elim (Bool-cases (c == b'0')) [
  | inl zero_digit ↦ to_string-zero c ((==_iff c b'0').0 zero_digit)
  | inr other ↦ to_string-positive c [] (ground arith) (ground arith) refl
]
to_string-value (c ∷ x ∷ xs) h =
    ap to_string (first_digit c (x ∷ xs)) ∙ elim (Bool-cases (c == b'0')) [
      | inl zero_digit ↦ ground arith
      | inr other ↦ to_string-positive c (x ∷ xs) (ground arith) (ground arith) (ground arith)
    ]
