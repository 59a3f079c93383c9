-- ===== src/Memory/Encoding/Groups.antt =====
-- Four units of base64 and the three bytes that they stand for (encoding.ts).
use browser_cortex.Common.{
  ℕ, zero, suc, ◌+◌, ◌*◌, ◌/◌, ◌%◌, ◌<◌, ◌≡◌, refl, ap, ap₂, ◌∙◌, Bool, true, not, ◌&&◌, Option,
  some, List, [], ◌∷◌, ◌++◌, Text, in_range, length, every, All, arith, ◌==◌,
}
use browser_cortex.Memory.Encoding.{
  alphabet, char_at, index_of, group, to_base64, is_base64_unit, value_of, bytes_of_group,
  append_option, all_bytes,
}

-- The units of a list in which each differs from those before it.
are_apart : Text → Bool
are_apart [] = true
are_apart (c ∷ cs) = every (λ d. not (c == d)) cs && are_apart cs

every-at :
    (p : ℕ → Bool) (cs : Text) (n : ℕ) → every p cs ≡ true → n < length cs → p (char_at n cs) ≡ true
unfolding char_at
every-at p [] n h l = absurd (omega arith)
every-at p (c ∷ cs) zero h l = ground arith
every-at p (c ∷ cs) (suc n) h l = every-at p cs n (ground arith) (omega arith)

index_of-at :
    (cs : Text) (n : ℕ) → are_apart cs ≡ true → n < length cs → index_of (char_at n cs) cs ≡ some n
unfolding index_of char_at are_apart
index_of-at [] n h l = absurd (omega arith)
index_of-at (c ∷ cs) zero h l = ground arith
index_of-at (c ∷ cs) (suc n) h l = ground (
  arith,
  index_of-at cs n (ground arith) (omega arith),
  every-at (λ d. not (c == d)) cs n (ground arith) (omega arith),
)

alphabet-apart : are_apart alphabet ≡ true
unfolding are_apart
alphabet-apart = refl

-- What a unit of the alphabet is: allowed, and no padding.
alphabet-allowed : every (λ c. is_base64_unit c && not (c == b'=')) alphabet ≡ true
unfolding is_base64_unit in_range
alphabet-allowed = refl

pub char-allowed :
    (n : ℕ)
    → n < 64
    → (is_base64_unit (char_at n alphabet) && not (char_at n alphabet == b'=')) ≡ true
char-allowed n l = every-at (λ c. is_base64_unit c && not (c == b'=')) alphabet n alphabet-allowed l

value_of-char : (n : ℕ) → n < 64 → value_of (char_at n alphabet) ≡ some n
unfolding value_of
value_of-char n l = ground (arith, index_of-at alphabet n alphabet-apart l, char-allowed n l)

abbrev pub IsByte : ℕ → Type 0
IsByte a = a < 256

-- The four parts of a number below 2^24, joined.
join-parts :
    (t : ℕ)
    → t < 16777216
    → (t / 262144) % 64 * 262144 + (t / 4096) % 64 * 4096 + (t / 64) % 64 * 64 + t % 64 ≡ t
join-parts t h = omega arith

-- The three bytes of a number that was made of them.
split-bytes :
    (a b c t : ℕ)
    → IsByte a
    → IsByte b
    → IsByte c
    → t ≡ a * 65536 + b * 256 + c
    → ((t / 65536) % 256 ≡ a) × ((t / 256) % 256 ≡ b) × (t % 256 ≡ c)
split-bytes a b c t ha hb hc e = (omega arith, omega arith, omega arith)

three_of : (p q r s : ℕ) → List ℕ
three_of p q r s =
    let t = p * 262144 + q * 4096 + r * 64 + s in (t / 65536) % 256 ∷ (t / 256) % 256 ∷ t % 256 ∷ []

three_of-parts :
    (a b c p q r s : ℕ)
    → IsByte a
    → IsByte b
    → IsByte c
    → p * 262144 + q * 4096 + r * 64 + s ≡ a * 65536 + b * 256 + c
    → three_of p q r s ≡ a ∷ b ∷ c ∷ []
unfolding three_of
three_of-parts a b c p q r s ha hb hc e =
    let (x, y, z) = split-bytes a b c (p * 262144 + q * 4096 + r * 64 + s) ha hb hc e in
    ap₂ ◌∷◌ x (ap₂ ◌∷◌ y (ap (λ w. w ∷ []) z))

-- Four values that are looked up in the alphabet.
group-bytes :
    (v w x y : Option ℕ) (p q r s a b c : ℕ)
    → v ≡ some p
    → w ≡ some q
    → x ≡ some r
    → y ≡ some s
    → IsByte a
    → IsByte b
    → IsByte c
    → p * 262144 + q * 4096 + r * 64 + s ≡ a * 65536 + b * 256 + c
    → bytes_of_group v w x y ≡ some (a ∷ b ∷ c ∷ [])
unfolding three_of
group-bytes v w x y p q r s a b c ev ew ex ey ha hb hc e =
    ap₂ (λ v' w'. bytes_of_group v' w' x y) ev ew
    ∙ ap₂ (λ x' y'. bytes_of_group (some p) (some q) x' y') ex ey
    ∙ ap some (three_of-parts a b c p q r s ha hb hc e)

-- How many bytes of the last group are missing, and the groups.
unfoldable pub pad : List ℕ → ℕ
pad [] = 0
pad (a ∷ []) = 2
pad (a ∷ b ∷ []) = 1
pad (a ∷ b ∷ c ∷ rest) = pad rest

unfoldable pub zeros : ℕ → List ℕ
zeros zero = []
zeros (suc n) = 0 ∷ zeros n

unfoldable pub groups : List ℕ → ℕ
groups [] = 0
groups (a ∷ []) = 1
groups (a ∷ b ∷ []) = 1
groups (a ∷ b ∷ c ∷ rest) = suc (groups rest)

value_of-part : (t : ℕ) → value_of (char_at (t % 64) alphabet) ≡ some (t % 64)
value_of-part t = value_of-char (t % 64) (omega arith)

empty_bytes : all_bytes [] ≡ some []
unfolding all_bytes
empty_bytes = refl

padding_value : value_of b'=' ≡ some 0
unfolding value_of
padding_value = refl

group-all_bytes :
    (c d e f : ℕ) (rest : Text) (p q r s x y z : ℕ) (bytes : List ℕ)
    → value_of c ≡ some p
    → value_of d ≡ some q
    → value_of e ≡ some r
    → value_of f ≡ some s
    → IsByte x
    → IsByte y
    → IsByte z
    → p * 262144 + q * 4096 + r * 64 + s ≡ x * 65536 + y * 256 + z
    → all_bytes rest ≡ some bytes
    → all_bytes (c ∷ d ∷ e ∷ f ∷ rest) ≡ some (x ∷ y ∷ z ∷ bytes)
unfolding all_bytes
group-all_bytes c d e f rest p q r s x y z bytes ep eq er es hx hy hz sum tail =
    ap₂ append_option (group-bytes _ _ _ _ p q r s x y z ep eq er es hx hy hz sum) tail

pub all_bytes-to :
    (bytes : List ℕ)
    → All IsByte bytes
    → all_bytes (to_base64 bytes) ≡ some (bytes ++ zeros (pad bytes))
unfolding to_base64 group pad zeros
all_bytes-to [] h = empty_bytes
all_bytes-to (a ∷ []) h =
    let t = a * 65536 + 0 * 256 + 0 in
    group-all_bytes _ _ b'=' b'=' [] ((t / 262144) % 64) ((t / 4096) % 64) 0 0 a 0 0 []
      (value_of-part (t / 262144)) (value_of-part (t / 4096)) padding_value padding_value h.0
      (omega arith) (omega arith) (omega (arith, h.0)) empty_bytes
all_bytes-to (a ∷ b ∷ []) h =
    let t = a * 65536 + b * 256 + 0 in
    group-all_bytes _ _ _ b'=' [] ((t / 262144) % 64) ((t / 4096) % 64) ((t / 64) % 64) 0 a b 0 []
      (value_of-part (t / 262144)) (value_of-part (t / 4096)) (value_of-part (t / 64)) padding_value
      h.0 h.1.0 (omega arith) (omega (arith, h.0, h.1.0)) empty_bytes
all_bytes-to (a ∷ b ∷ c ∷ rest) h =
    let t = a * 65536 + b * 256 + c in
    group-all_bytes _ _ _ _ (to_base64 rest) ((t / 262144) % 64) ((t / 4096) % 64) ((t / 64) % 64)
      (t % 64) a b c (rest ++ zeros (pad rest)) (value_of-part (t / 262144))
      (value_of-part (t / 4096)) (value_of-part (t / 64)) (value_of-part t) h.0 h.1.0 h.1.1.0
      (join-parts t (omega (arith, h.0, h.1.0, h.1.1.0))) (all_bytes-to rest h.1.1.1)
