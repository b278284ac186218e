-- ===== src/Text/Number.antt =====
-- `strconv.ParseInt` in base ten with its error dropped, and `%d`, which the kubelet's flags use.
use agent_baker.Prelude.{
  ℕ, zero, suc, ◌+◌, ◌-◌, ◌*◌, ◌/◌, ◌%◌, ◌≤◌, ◌<◌, Bool, true, false, ◌&&◌, [], ◌∷◌, ◌≡◌, refl,
  Option, none, some, arith, Bool-cases, inl, inr, leb, ltb, ◌==◌, if◌then◌else◌, All, ap, sym, ◌∙◌,
}
use agent_baker.Prelude.Int.{ℤ, pos, negsuc}
use agent_baker.Text.{Text}

unfoldable pub is_digit : ℕ → Bool
is_digit c = leb b'0' c && leb c b'9'

-- The loop of `ParseUint`: `none` is a syntax error; a number over `max` ends the loop with `max`.
pub scan : ℕ → ℕ → Text → Option ℕ
scan max n [] = some n
scan max n (c ∷ s) =
    if is_digit c
    then (if ltb max (n * 10 + (c - b'0')) then some max else scan max (n * 10 + (c - b'0')) s)
    else none

pub parse_uint : ℕ → Text → Option ℕ
parse_uint max [] = none
parse_uint max (c ∷ s) = scan max 0 (c ∷ s)

-- `-n`
abbrev pub negate : ℕ → ℤ
negate zero = pos 0
negate (suc n) = negsuc n

-- `cutoff` is 2 ^ (w - 1) for a w-bit integer.
pub clamp : ℕ → Bool → Option ℕ → ℤ
clamp cutoff negative none = pos 0
clamp cutoff false (some n) = if leb cutoff n then pos (cutoff - 1) else pos n
clamp cutoff true (some n) = if ltb cutoff n then negate cutoff else negate n

-- `i, _ := strconv.ParseInt(s, 10, w)` with `cutoff` = 2 ^ (w - 1)
unfoldable pub parse_int : ℕ → Text → ℤ
unfolding parse_uint clamp scan is_digit
parse_int cutoff [] = pos 0
parse_int cutoff (c ∷ s) =
    if c == b'-'
    then clamp cutoff true (parse_uint (2 * cutoff - 1) s)
    else if c == b'+'
    then clamp cutoff false (parse_uint (2 * cutoff - 1) s)
    else clamp cutoff false (parse_uint (2 * cutoff - 1) (c ∷ s))

-- The decimal digits of a number, on fuel; `suc n` is enough for `n`.
pub digits : ℕ → ℕ → Text → Text
digits zero n out = out
digits (suc fuel) n out =
    let here = (b'0' + n % 10) ∷ out in
    elim (ltb 0 (n / 10)) [ true ↦ digits fuel (n / 10) here | false ↦ here ]

-- `fmt.Sprintf("%d", i)`
unfoldable pub format_int : ℤ → Text
unfolding digits
format_int (pos n) = digits (suc n) n []
format_int (negsuc n) = b'-' ∷ digits (suc (suc n)) (suc n) []

abbrev pub Fits : ℕ → ℤ → Type 0
Fits cutoff (pos n) = n < cutoff
Fits cutoff (negsuc n) = n < cutoff

-- Reading digits goes on from the number the digits stand for, as long as it is in range.
scan-digits :
    (fuel n max : ℕ) (out : Text)
    → n < fuel
    → n ≤ max
    → scan max 0 (digits fuel n out) ≡ scan max n out
unfolding digits scan is_digit
scan-digits zero n max out h g = absurd (omega arith)
scan-digits (suc fuel) n max out h g =
    ground (arith, scan-digits fuel (n / 10) max ((b'0' + n % 10) ∷ out))

record Leads (s : Text) : Type 0 where
  pub first : ℕ
  pub rest : Text
  pub shape : s ≡ first ∷ rest
  pub low : b'0' ≤ first

digits-Leads : (fuel n : ℕ) (out : Text) → Leads (digits (suc fuel) n out)
unfolding digits
digits-Leads zero n out = elim (Bool-cases (ltb 0 (n / 10))) [
  | inl e ↦ record {
    first = b'0' + n % 10;
    rest = out;
    shape = rw (digits, e, digits) refl;
    low = omega arith;
  }
  | inr e ↦ record {
    first = b'0' + n % 10;
    rest = out;
    shape = rw (digits, e) refl;
    low = omega arith;
  }
]
digits-Leads (suc fuel) n out = elim (Bool-cases (ltb 0 (n / 10))) [
  | inl e ↦
      let l = digits-Leads fuel (n / 10) ((b'0' + n % 10) ∷ out) in
      record { first = l.first; rest = l.rest; shape = rw (digits, e) l.shape; low = l.low }
  | inr e ↦ record {
    first = b'0' + n % 10;
    rest = out;
    shape = rw (digits, e) refl;
    low = omega arith;
  }
]

-- Any number that fits, printed by `%d`, is read back by `parse_int`.
parse_uint-Leads : (max : ℕ) (s : Text) (l : Leads s) → parse_uint max s ≡ scan max 0 s
unfolding parse_uint
parse_uint-Leads max [] l = absurd (cc l.shape)
parse_uint-Leads max (c ∷ s) l = refl

parse_uint-digits :
    (fuel n max : ℕ) → n ≤ fuel → n ≤ max → parse_uint max (digits (suc fuel) n []) ≡ some n
unfolding scan
parse_uint-digits fuel n max h g =
    rw
      (
        parse_uint-Leads max (digits (suc fuel) n []) (digits-Leads fuel n []),
        scan-digits (suc fuel) n max [] (omega arith) g,
      )
      refl

head_low : (c : ℕ) (s : Text) → Leads (c ∷ s) → b'0' ≤ c
head_low c s l = ground (arith, l.low, l.shape)

parse_int-Leads :
    (cutoff : ℕ) (s : Text) (l : Leads s)
    → parse_int cutoff s ≡ clamp cutoff false (parse_uint (2 * cutoff - 1) s)
unfolding parse_int
parse_int-Leads cutoff [] l = absurd (cc l.shape)
parse_int-Leads cutoff (c ∷ s) l = ground (arith, head_low c s l)

pub parse_int-format_int :
    (cutoff : ℕ) (z : ℤ) → Fits cutoff z → parse_int cutoff (format_int z) ≡ z
unfolding format_int
parse_int-format_int cutoff (pos n) h =
    rw
      (
        parse_int-Leads cutoff (digits (suc n) n []) (digits-Leads n n []),
        parse_uint-digits n n (2 * cutoff - 1) (omega arith) (omega arith),
      )
      (unfold clamp in ground arith)
parse_int-format_int cutoff (negsuc n) h =
    unfold parse_int in
    rw (parse_uint-digits (suc n) (suc n) (2 * cutoff - 1) (omega arith) (omega arith))
      (unfold clamp in ground arith)

digits-Lacks :
    (c : ℕ) (fuel n : ℕ) (out : Text)
    → is_digit c ≡ false
    → All (λ x. (x == c) ≡ false) out
    → All (λ x. (x == c) ≡ false) (digits fuel n out)
unfolding digits is_digit
digits-Lacks c zero n out h g = g
digits-Lacks c (suc fuel) n out h g =
    let here : ((b'0' + n % 10) == c) ≡ false = ground (arith, h) in
    elim (Bool-cases (ltb 0 (n / 10))) [
      | inl e ↦ rw (digits, e) (digits-Lacks c fuel (n / 10) ((b'0' + n % 10) ∷ out) h (here, g))
      | inr e ↦ rw (digits, e) (here, g)
    ]

-- A number of ℕ is printed with digits alone, and not by the empty text.
pub format_int-Lacks :
    (c n : ℕ) → is_digit c ≡ false → All (λ x. (x == c) ≡ false) (format_int (pos n))
unfolding format_int
format_int-Lacks c n h = digits-Lacks c (suc n) n [] h tt

pub format_int_injective : (m n : ℕ) → format_int (pos m) ≡ format_int (pos n) → m ≡ n
format_int_injective m n e =
    let read =
      sym (parse_int-format_int (suc (m + n)) (pos m) (omega arith))
      ∙ ap (parse_int (suc (m + n))) e
      ∙ parse_int-format_int (suc (m + n)) (pos n) (omega arith) in
    cc read
