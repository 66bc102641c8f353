-- ===== src/Protocol/Secrets.antt =====
-- go/internal/protocol/ids.go: the grant secret in a capability URL.
use grantd.Base.{
  ◌≡◌, Option, none, some, ◌++◌, Bytes, Result, ok, err, codes, arith, All, length, not, ◌==◌,
  if◌then◌else◌,
}
use grantd.Std.Base32.{IsByte}
use grantd.Std.Base64.{url_alphabet, encode_raw, decode_raw}
use grantd.Std.Base64.RoundTrip.{decode_raw-encode_raw}
use grantd.Protocol.Ids.{secret_len}

pub data Error : Type 0 where
  malformed_secret secret_length : Error

unfoldable pub encode_secret : Bytes → Bytes
encode_secret secret = encode_raw url_alphabet secret

sized : Option Bytes → Result Error Bytes
sized none = err malformed_secret
sized (some raw) = if not (length raw == secret_len) then err secret_length else ok raw

unfoldable pub decode_secret : Bytes → Result Error Bytes
unfolding sized
decode_secret s = sized (decode_raw url_alphabet s)

unfoldable pub capability_url : Bytes → Bytes → Bytes → Bytes → Bytes
capability_url origin host_id grant_id secret =
    origin
    ++ (codes "/g/"
        ++ (host_id ++ (codes "/" ++ (grant_id ++ (codes "#" ++ encode_secret secret)))))

-- A secret of 32 bytes survives the fragment of the URL.
pub decode_secret-encode_secret :
    (secret : Bytes)
    → length secret ≡ 32
    → All IsByte secret
    → decode_secret (encode_secret secret) ≡ ok secret
unfolding decode_secret encode_secret
decode_secret-encode_secret secret h b = ground (arith, decode_raw-encode_raw secret b)
