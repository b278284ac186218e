-- ===== src/Tests/Generators.antt =====
-- The helpers of the generator, at concrete addresses, secrets, certificates and templates.
use agent_baker.Prelude.{
  ◌+◌, ◌<◌, true, [], ◌∷◌, ◌≡◌, refl, arith, Option, none, some, is_some, length, ltb,
  if◌then◌else◌, ap,
}
use agent_baker.Prelude.Result.{err, ok}
use agent_baker.Prelude.Int.{pos}
use agent_baker.Text.{Text, text, split, has_prefix, trim_prefix}
use agent_baker.Certificate.{PemBlock, CertificateTools, certificate_hash}
use agent_baker.Certificate.Terminates.{certificate_hash-returns}
use agent_baker.Generator.Addresses.{
  Ip4, overflows_fourth_octet, parse_ip4, colon_first, parse_octet, generate_consecutive_ips_list,
}
use agent_baker.Generator.Addresses.Printed.{IsAddress}
use agent_baker.Generator.Addresses.Consecutive.{consecutive, generate_consecutive_ips_list_lem}
use agent_baker.Generator.Params.Secret.{
  Captured, literal, run, secret_part, name_and_version, find_string_submatch,
}
use agent_baker.Generator.Params.Secret.Written.{written, find_string_submatch-written}

-- No text in the notation of IPv6 is read.
abbrev no_ip6 : Text → Option Ip4
no_ip6 s = none

abbrev first_ip : Ip4
first_ip = record { a = 10; b = 240; c = 0; d = 100 }

first_ip_read : parse_ip4 no_ip6 (text "10.240.0.100") ≡ some first_ip
unfolding parse_ip4 text colon_first split parse_octet
first_ip_read = refl

first_ip_small : IsAddress first_ip
first_ip_small = record {
  a_small = omega arith;
  b_small = omega arith;
  c_small = omega arith;
  d_small = omega arith;
}

generate_consecutive_ips_list_lem_example :
    generate_consecutive_ips_list no_ip6 (pos 3) (text "10.240.0.100")
    ≡ some (
        if ltb (first_ip.d + 3) 255
        then ok (consecutive first_ip 3)
        else err (overflows_fourth_octet (text "10.240.0.100") (pos 3)))
generate_consecutive_ips_list_lem_example =
    generate_consecutive_ips_list_lem no_ip6 (text "10.240.0.100") first_ip 3 first_ip_read
      first_ip_small (omega arith)

abbrev reference : Text
reference =
    text "/subscriptions/S/resourceGroups/G/providers/Microsoft.KeyVault/vaults/V/secrets/N/1"

abbrev parts : Captured
parts = record {
  vault_id = text "/subscriptions/S/resourceGroups/G/providers/Microsoft.KeyVault/vaults/V";
  secret_name = text "N";
  secret_version = text "1";
}

reference_found : find_string_submatch reference ≡ some parts
unfolding find_string_submatch text literal has_prefix run trim_prefix secret_part name_and_version
reference_found = refl

find_string_submatch-written_example : reference ≡ written parts
find_string_submatch-written_example = find_string_submatch-written reference parts reference_found

-- A block for each byte.
abbrev byte_blocks : Text → Option (PemBlock × Text)
byte_blocks [] = none
byte_blocks (c ∷ s) =
    some (record { block_type = text "CERTIFICATE"; headers = []; bytes = c ∷ [] }, s)

abbrev tools : CertificateTools
tools = record {
  pem_decode = byte_blocks;
  parse_certificate = λ bytes. ok bytes;
  hex_sha256 = λ key. text "AB";
}

rest_of : Option (PemBlock × Text) → Text
rest_of none = []
rest_of (some (block, rest)) = rest

tools_shorten :
    (s : Text) (block : PemBlock) (rest : Text)
    → byte_blocks s ≡ some (block, rest)
    → length rest < length s
unfolding rest_of
tools_shorten [] block rest h = absurd (ground (arith, h))
tools_shorten (c ∷ s) block rest h = omega (arith, ap (λ o. length (rest_of o)) h)

certificate_hash-returns_example : is_some (certificate_hash tools (text "C")) ≡ true
certificate_hash-returns_example =
    certificate_hash-returns tools (text "C") (record { shorter = tools_shorten })
