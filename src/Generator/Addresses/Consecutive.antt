-- ===== src/Generator/Addresses/Consecutive.antt =====
-- pkg/agent/utils.go: what `generateConsecutiveIPsList` gives.
use agent_baker.Prelude.{
  ℕ, zero, suc, ◌+◌, ◌^◌, ◌<◌, ◌≤◌, true, false, List, [], ◌∷◌, ◌≡◌, refl, arith, Option, some,
  Bool-cases, inl, inr, if◌then◌else◌, ltb, ap,
}
use agent_baker.Prelude.Result.{err, ok}
use agent_baker.Prelude.Int.{pos}
use agent_baker.Text.{Text}
use agent_baker.Generator.Addresses.{
  Ip4, overflows_fourth_octet, parse_ip4, format_ip4, moved, generate_from, reaches_255,
  make_and_fill, generate_at, generate_consecutive_ips_list,
}
use agent_baker.Generator.Addresses.Printed.{IsAddress, parse_ip4-format_ip4}

-- The addresses from `ip` on, `n` of them: one more in the fourth octet each time.
abbrev pub consecutive : Ip4 → ℕ → List Text
consecutive ip zero = []
consecutive ip (suc n) = format_ip4 ip ∷ consecutive (record ip { d = ip.d + 1 }) n

moved_exact : (ip : Ip4) (i : ℕ) → ip.d + i < 256 → moved ip i ≡ record ip { d = ip.d + i }
moved_exact ip i h = ap (λ (e : ℕ). record ip { d = e }) (omega (arith, h))

next_address :
    (ip : Ip4) (i n : ℕ)
    → consecutive (record ip { d = ip.d + (i + 1) }) n
      ≡ consecutive (record ip { d = ip.d + i + 1 }) n
next_address ip i n = ap (λ (e : ℕ). consecutive (record ip { d = e }) n) (omega arith)

generate_from-consecutive :
    (ip6_to4 : Text → Option Ip4) (ip : Ip4) (i n : ℕ)
    → IsAddress ip
    → ip.d + i + n ≤ 256
    → generate_from ip6_to4 ip i n ≡ ok (consecutive (record ip { d = ip.d + i }) n)
unfolding generate_from
generate_from-consecutive ip6_to4 ip i zero h g = refl
generate_from-consecutive ip6_to4 ip i (suc n) h g = rw (
  moved_exact ip i (omega arith),
  parse_ip4-format_ip4 ip6_to4 (record ip { d = ip.d + i })
      (record {
        a_small = h.a_small;
        b_small = h.b_small;
        c_small = h.c_small;
        d_small = omega arith;
      }),
  generate_from-consecutive ip6_to4 ip (i + 1) n h (omega arith),
  next_address ip i n,
)

reaches_255-above :
    (d n : ℕ) → d < 256 → n < 2 ^ 62 → ltb (d + n) 255 ≡ false → reaches_255 d (pos n) ≡ true
unfolding reaches_255
reaches_255-above d n h g e = ground arith

reaches_255-below : (d n : ℕ) → ltb (d + n) 255 ≡ true → reaches_255 d (pos n) ≡ false
unfolding reaches_255
reaches_255-below d n e = ground arith

first_address : (ip : Ip4) (n : ℕ) → consecutive (record ip { d = ip.d + 0 }) n ≡ consecutive ip n
first_address ip n = ap (λ (e : ℕ). consecutive (record ip { d = e }) n) (omega arith)

make_and_fill-below :
    (ip6_to4 : Text → Option Ip4) (ip : Ip4) (n : ℕ)
    → IsAddress ip
    → ltb (ip.d + n) 255 ≡ true
    → make_and_fill ip6_to4 ip (pos n) ≡ some (ok (consecutive ip n))
unfolding make_and_fill
make_and_fill-below ip6_to4 ip n h e =
    let room : ltb n (2 ^ 44) ≡ true = ground arith in
    rw (room, generate_from-consecutive ip6_to4 ip 0 n h (ground arith), first_address ip n)

-- For an address that is read as four octets and a count below 2 ^ 62: if the fourth octet and the
-- count stay below 255, the list is the address itself and the ones after it, as many as the
-- count says, with no octet wrapped around; else the overflow is reported. It never panics then.
pub generate_consecutive_ips_list_lem :
    (ip6_to4 : Text → Option Ip4) (first_addr : Text) (ip : Ip4) (count : ℕ)
    → parse_ip4 ip6_to4 first_addr ≡ some ip
    → IsAddress ip
    → count < 2 ^ 62
    → generate_consecutive_ips_list ip6_to4 (pos count) first_addr
      ≡ some (
          if ltb (ip.d + count) 255
          then ok (consecutive ip count)
          else err (overflows_fourth_octet first_addr (pos count)))
unfolding generate_consecutive_ips_list generate_at
generate_consecutive_ips_list_lem ip6_to4 first_addr ip count e h small =
    elim (Bool-cases (ltb (ip.d + count) 255)) [
      | inl below ↦ rw (
        e,
        reaches_255-below ip.d count below,
        below,
        make_and_fill-below ip6_to4 ip count h below,
      )
      | inr above ↦ rw (e, reaches_255-above ip.d count h.d_small small above, above)
    ]
