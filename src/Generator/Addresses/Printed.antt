-- ===== src/Generator/Addresses/Printed.antt =====
-- Package net: an address that is printed is read back.
use agent_baker.Prelude.{ℕ, Option, ◌<◌, false, [], ◌∷◌, ◌++◌, ◌≡◌, refl, arith, some, All, ◌==◌}
use agent_baker.Text.{Text, split, join}
use agent_baker.Text.Split.{Lacks, split-join}
use agent_baker.Generator.Addresses.{
  Ip4, parse_octet, format_octet, colon_first, parse_ip4, format_ip4,
}

parse_octet-format_octet : (n : ℕ) → n < 256 → parse_octet (format_octet n) ≡ some n
unfolding parse_octet format_octet
parse_octet-format_octet n h = ground arith

-- A digit is neither a dot nor a colon.
abbrev IsPlain : ℕ → Type 0
IsPlain c = ((c == b'.') ≡ false) × ((c == b':') ≡ false)

format_octet-All : (n : ℕ) → n < 256 → All IsPlain (format_octet n)
unfolding format_octet
format_octet-All n h = ground arith

-- What the printed address has no byte of.
Plain-Lacks : (s : Text) → All IsPlain s → Lacks (λ c. c == b'.') s
Plain-Lacks [] h = tt
Plain-Lacks (c ∷ s) ((p, q), h) = (p, Plain-Lacks s h)

colon_first-append : (s t : Text) → All IsPlain s → colon_first (s ++ b'.' ∷ t) ≡ false
unfolding colon_first
colon_first-append [] t h = refl
colon_first-append (c ∷ s) t ((p, q), h) = rw (p, q, colon_first-append s t h)

-- Each octet is below 256.
pub record IsAddress (ip : Ip4) : Type 0 where
  pub a_small : ip.a < 256
  pub b_small : ip.b < 256
  pub c_small : ip.c < 256
  pub d_small : ip.d < 256

split-format_ip4 :
    (ip : Ip4)
    → IsAddress ip
    → split (format_ip4 ip) b'.'
      ≡ format_octet ip.a ∷ format_octet ip.b ∷ format_octet ip.c ∷ format_octet ip.d ∷ []
unfolding format_ip4 join
split-format_ip4 ip h =
    split-join b'.' (format_octet ip.a)
      (format_octet ip.b ∷ format_octet ip.c ∷ format_octet ip.d ∷ [])
      (Plain-Lacks _ (format_octet-All ip.a h.a_small))
      (
        Plain-Lacks _ (format_octet-All ip.b h.b_small),
        (
          Plain-Lacks _ (format_octet-All ip.c h.c_small),
          (Plain-Lacks _ (format_octet-All ip.d h.d_small), tt),
        ),
      )

colon_first-format_ip4 : (ip : Ip4) → IsAddress ip → colon_first (format_ip4 ip) ≡ false
unfolding format_ip4
colon_first-format_ip4 ip h =
    colon_first-append (format_octet ip.a) _ (format_octet-All ip.a h.a_small)

pub parse_ip4-format_ip4 :
    (ip6_to4 : Text → Option Ip4) (ip : Ip4)
    → IsAddress ip
    → parse_ip4 ip6_to4 (format_ip4 ip) ≡ some ip
unfolding parse_ip4
parse_ip4-format_ip4 ip6_to4 ip h = rw (
  colon_first-format_ip4 ip h,
  split-format_ip4 ip h,
  parse_octet-format_octet ip.a h.a_small,
  parse_octet-format_octet ip.b h.b_small,
  parse_octet-format_octet ip.c h.c_small,
  parse_octet-format_octet ip.d h.d_small,
)
