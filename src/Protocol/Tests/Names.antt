-- ===== src/Protocol/Tests/Names.antt =====
-- The name of one host.
use grantd.Base.{◌≡◌, refl, ok, Bytes, codes, eq_bytes}
use grantd.Std.Base32.{all_b32, is_b32_char}
use grantd.Std.Strings.{split, strip_prefix}
use grantd.Protocol.Validate.{validate_hostname, all_bytes}
use grantd.Protocol.Dns.{
  host_dns_name, validate_dns_suffix, dns_suffix_matches, host_label_matches, present, hostname,
}
use grantd.Protocol.Dns.Laws.{host_dns_name-injective}

abbrev lower_case : Bytes → Bytes
lower_case s = s

abbrev some_host : Bytes
some_host = codes "h_abcdefghijklmnopqrstuvwxyz234567"

host_named :
    host_dns_name lower_case some_host (codes "hosts.grantd.dev")
    ≡ ok (codes "abcdefghijklmnopqrstuvwxyz234567.hosts.grantd.dev")
unfolding host_dns_name validate_dns_suffix dns_suffix_matches host_label_matches present hostname
    split strip_prefix eq_bytes all_b32 is_b32_char all_bytes validate_hostname
host_named = refl

host_dns_name-injective_example : some_host ≡ some_host
host_dns_name-injective_example =
    host_dns_name-injective lower_case some_host some_host (codes "hosts.grantd.dev")
      (codes "abcdefghijklmnopqrstuvwxyz234567.hosts.grantd.dev") host_named host_named
