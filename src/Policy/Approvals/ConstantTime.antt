-- ===== src/Policy/Approvals/ConstantTime.antt =====
-- The loop of `constantTimeEqual` (approvals.ts).
use Prim.Native.Nat.{bit_or, bit_xor}
use browser_cortex.Common.{
  ℕ, zero, suc, ◌≡◌, refl, ap₂, subst, sym, ◌∙◌, ◌↔◌, true, [], ◌∷◌, Text, length, arith, max,
  ==_iff,
}
use browser_cortex.Common.Bits.{eq_zero_of_bit_or, eq_of_bit_xor, bit_xor_self}
use browser_cortex.Policy.Approvals.{char_code_at, difference_from, constant_time_equal}

-- A round at a later index does not see the first code units.
difference_from-cons :
    (rounds index difference a b : ℕ) (left right : Text)
    → difference_from rounds (suc index) difference (a ∷ left) (b ∷ right)
      ≡ difference_from rounds index difference left right
unfolding difference_from char_code_at
difference_from-cons zero index difference a b left right = refl
difference_from-cons (suc rounds) index difference a b left right =
    difference_from-cons rounds (suc index) _ a b left right

difference_from_zero :
    (difference : ℕ) (left right : Text)
    → length left ≡ length right
    → difference_from (length left) 0 difference left right ≡ 0
    → (difference ≡ 0) × (left ≡ right)
unfolding difference_from char_code_at
difference_from_zero difference [] [] same e = (e, refl)
difference_from_zero difference [] (b ∷ right) same e = absurd (omega arith)
difference_from_zero difference (a ∷ left) [] same e = absurd (omega arith)
difference_from_zero difference (a ∷ left) (b ∷ right) same e =
    let (p, q) =
      difference_from_zero (bit_or difference (bit_xor a b)) left right (omega arith)
        (sym (difference_from-cons (length left) 0 _ a b left right) ∙ e) in
    let (d, x) = eq_zero_of_bit_or difference (bit_xor a b) p in
    (d, ap₂ ◌∷◌ (eq_of_bit_xor a b x) q)

difference_from_self :
    (rounds index : ℕ) (text : Text) → difference_from rounds index 0 text text ≡ 0
unfolding difference_from
difference_from_self zero index text = refl
difference_from_self (suc rounds) index text =
    rw (bit_xor_self (char_code_at text index)) (difference_from_self rounds (suc index) text)

eq_of_difference :
    (left right : Text)
    → difference_from
        (max (length left) (length right))
        0
        (bit_xor (length left) (length right))
        left
        right
      ≡ 0
    → length left ≡ length right
    → left ≡ right
eq_of_difference left right e same =
    (difference_from_zero (bit_xor (length left) (length right)) left right same (
      subst (λ n. difference_from n 0 (bit_xor (length left) (length right)) left right ≡ 0)
        (omega arith) e)).1

-- The bits of `difference` only grow.
start_zero :
    (rounds index difference : ℕ) (left right : Text)
    → difference_from rounds index difference left right ≡ 0
    → difference ≡ 0
unfolding difference_from
start_zero zero index difference left right e = e
start_zero (suc rounds) index difference left right e =
    (eq_zero_of_bit_or difference _ (start_zero rounds (suc index) _ left right e)).0

-- `constantTimeEqual` returns true exactly on equal strings.
pub constant_time_equal_iff :
    (left right : Text) → (constant_time_equal left right ≡ true) ↔ (left ≡ right)
unfolding constant_time_equal
constant_time_equal_iff left right = (
  λ h.
      let e = (==_iff _ 0).0 h in
      eq_of_difference left right e
        (eq_of_bit_xor _ _ (start_zero (max (length left) (length right)) 0 _ left right e)),
  λ e.
      subst (λ r. constant_time_equal left r ≡ true) e
        (unfold constant_time_equal in
          rw (bit_xor_self (length left))
            (rw (difference_from_self (max (length left) (length left)) 0 left))),
)
