-- ===== src/Generator/Addresses.antt =====
-- pkg/agent/utils.go, `generateConsecutiveIPsList`, with what it uses of package net.
pub mod Printed
pub mod Consecutive
use agent_baker.Prelude.{
  ℕ, zero, suc, ◌+◌, ◌-◌, ◌*◌, ◌/◌, ◌%◌, ◌^◌, Bool, true, false, not, ◌&&◌, ◌||◌, List, [], ◌∷◌,
  ◌++◌, Option, none, some, leb, ltb, ◌==◌, if◌then◌else◌,
}
use agent_baker.Prelude.Result.{Result, err, ok, ◌>>=◌}
use agent_baker.Prelude.Int.{ℤ, pos, negsuc}
use agent_baker.Text.{Text, split}

-- An IPv4 address by its four octets.
pub record Ip4 : Type 0 where
  pub a : ℕ
  pub b : ℕ
  pub c : ℕ
  pub d : ℕ

-- A number below 256 in decimal, without a leading zero.
unfoldable pub parse_octet : Text → Option ℕ
parse_octet (x ∷ []) = if leb b'0' x && leb x b'9' then some (x - b'0') else none
parse_octet (x ∷ y ∷ []) =
    if (leb b'1' x && leb x b'9') && (leb b'0' y && leb y b'9')
    then some ((x - b'0') * 10 + (y - b'0'))
    else none
parse_octet (x ∷ y ∷ z ∷ []) =
    if ((leb b'1' x && leb x b'9') && ((leb b'0' y && leb y b'9') && (leb b'0' z && leb z b'9')))
      && ltb ((x - b'0') * 100 + (y - b'0') * 10 + (z - b'0')) 256
    then some ((x - b'0') * 100 + (y - b'0') * 10 + (z - b'0'))
    else none
parse_octet _ = none

abbrev pub four : Option ℕ → Option ℕ → Option ℕ → Option ℕ → Option Ip4
four (some a) (some b) (some c) (some d) = some (record { a = a; b = b; c = c; d = d })
four _ _ _ _ = none

abbrev pub dotted : List Text → Option Ip4
dotted (p ∷ q ∷ r ∷ s ∷ []) = four (parse_octet p) (parse_octet q) (parse_octet r) (parse_octet s)
dotted _ = none

-- The text has a colon before any dot, as an IPv6 address does.
unfoldable pub colon_first : Text → Bool
colon_first [] = false
colon_first (c ∷ s) =
    let rest = colon_first s in if c == b':' then true else if c == b'.' then false else rest

-- `net.ParseIP(s).To4()`, with leading zeros refused as from Go 1.17 on; `ip6_to4` is what it does
-- with a text in the notation of IPv6.
unfoldable pub parse_ip4 : (Text → Option Ip4) → Text → Option Ip4
parse_ip4 ip6_to4 s = if colon_first s then ip6_to4 s else dotted (split s b'.')

-- `%d` of a byte
unfoldable pub format_octet : ℕ → Text
format_octet n =
    if ltb n 10
    then (b'0' + n) ∷ []
    else if ltb n 100
    then (b'0' + n / 10) ∷ (b'0' + n % 10) ∷ []
    else (b'0' + n / 100) ∷ (b'0' + n / 10 % 10) ∷ (b'0' + n % 10) ∷ []

-- `fmt.Sprintf("%d.%d.%d.%d", a, b, c, d)`
unfoldable pub format_ip4 : Ip4 → Text
format_ip4 ip =
    format_octet ip.a
    ++ b'.' ∷ (format_octet ip.b ++ b'.' ∷ (format_octet ip.c ++ b'.' ∷ format_octet ip.d))

-- The errors of `generateConsecutiveIPsList`, with the values that they print.
pub data AddressError : Type 0 where
  invalid_ip_address : Text → AddressError
  overflows_fourth_octet : Text → ℤ → AddressError

-- `ipaddr[3]+byte(i)`, in eight bits
abbrev pub moved : Ip4 → ℕ → Ip4
moved ip i = record ip { d = (ip.d + i % 2 ^ 8) % 2 ^ 8 }

abbrev pub checked : Option Ip4 → Text → Result AddressError Text
checked none address = err (invalid_ip_address address)
checked (some ip) address = ok address

-- The loop of `generateConsecutiveIPsList` from index `i` on, with `n` steps to go.
unfoldable pub generate_from : (Text → Option Ip4) → Ip4 → ℕ → ℕ → Result AddressError (List Text)
generate_from ip6_to4 ip i zero = ok []
generate_from ip6_to4 ip i (suc n) = do
  address ← checked (parse_ip4 ip6_to4 (format_ip4 (moved ip i))) (format_ip4 (moved ip i))
  rest ← generate_from ip6_to4 ip (i + 1) n
  ok (address ∷ rest)

-- `int(ipaddr[3])+count >= 255`: the sum wraps in 64 bits.
unfoldable pub reaches_255 : ℕ → ℤ → Bool
reaches_255 d (pos n) = leb 255 ((d + n) % 2 ^ 64) && ltb ((d + n) % 2 ^ 64) (2 ^ 63)
reaches_255 d (negsuc n) = false

-- `make([]string, count)` panics for a negative length, and for one that no memory can hold.
unfoldable pub make_and_fill :
    (Text → Option Ip4) → Ip4 → ℤ → Option (Result AddressError (List Text))
make_and_fill ip6_to4 ip (pos n) =
    if ltb n (2 ^ 44) then some (generate_from ip6_to4 ip 0 n) else none
make_and_fill ip6_to4 ip (negsuc n) = none

unfoldable pub generate_at :
    (Text → Option Ip4) → ℤ → Text → Option Ip4 → Option (Result AddressError (List Text))
generate_at ip6_to4 count first_addr none = some (err (invalid_ip_address first_addr))
generate_at ip6_to4 count first_addr (some ip) =
    if reaches_255 ip.d count
    then some (err (overflows_fourth_octet first_addr count))
    else make_and_fill ip6_to4 ip count

-- `generateConsecutiveIPsList`; `none` is a panic.
unfoldable pub generate_consecutive_ips_list :
    (Text → Option Ip4) → ℤ → Text → Option (Result AddressError (List Text))
generate_consecutive_ips_list ip6_to4 count first_addr =
    generate_at ip6_to4 count first_addr (parse_ip4 ip6_to4 first_addr)
