-- ===== src/Warden/Tests.antt =====
-- The warden at one certificate.
mod Life
mod Admit
use grantd.Base.{
  ◌↔◌, ◌≡◌, refl, true, Option, none, some, [], ◌∷◌, Bytes, pos, ok, codes, eq_bytes, ℕ,
}
use grantd.Std.Base32.{all_b32, is_b32_char}
use grantd.Std.Strings.{split}
use grantd.Protocol.Ids.{valid_grant_id, valid_agent_id}
use grantd.SshCert.{key_id}
use grantd.Warden.KeyId.{parse_key_id}
use grantd.Warden.KeyId.Laws.{parse_key_id_iff}
use grantd.Warden.State.{Proc, GrantInfo, Answer, known, Warden, Config, is_sshd}
use grantd.Warden.Admission.{
  sshd_of, check_grant, check_info, admits, put_pending, admissible, record_admission, admit,
}

abbrev grant_id : Bytes
grant_id = codes "g_aaaaaaaaaaaaaaaa"

abbrev agent_id : Bytes
agent_id = codes "a_aaaaaaaaaaaaaaaaaaaaaaaaaaaaaaaa"

abbrev pub label : Bytes
label = codes "grantd:g_aaaaaaaaaaaaaaaa:a_aaaaaaaaaaaaaaaaaaaaaaaaaaaaaaaa"

grant_id_valid : valid_grant_id grant_id ≡ true
unfolding valid_grant_id all_b32 is_b32_char
grant_id_valid = refl

agent_id_valid : valid_agent_id agent_id ≡ true
unfolding valid_agent_id all_b32 is_b32_char
agent_id_valid = refl

parse_key_id_iff_example : (parse_key_id label ≡ some (grant_id, agent_id)) ↔ (
    (label ≡ key_id grant_id agent_id)
    × (valid_grant_id grant_id ≡ true)
    × (valid_agent_id agent_id ≡ true))
parse_key_id_iff_example = parse_key_id_iff label grant_id agent_id

abbrev cfg : Config
cfg = record {
  ssh_user = codes "visitor";
  slice = codes "grantd.slice";
  admit_uid = 990;
  term_grace = pos 5000000000;
  pending_ttl = pos 180000000000;
}

abbrev sshd : Proc
sshd = record {
  pid = 400;
  ppid = 1;
  uid = 0;
  start_time = 7;
  exe = codes "sshd-session";
  cgroup = [];
}

abbrev caller : Proc
caller = record { pid = 401; ppid = 400; uid = 990; start_time = 8; exe = []; cgroup = [] }

abbrev table : ℕ → Option Proc
table pid = some sshd

abbrev info : GrantInfo
info = record {
  id = grant_id;
  ssh_user = codes "visitor";
  expires_at = pos 2700;
  redeemed_at = some (pos 1000);
  revoked_at = none;
  certificate_serial = codes "5";
}

abbrev signer : Bytes → Answer
signer id = known info

abbrev pub idle : Warden
idle = record { grants = []; pending = []; ready = true }

abbrev admitted : Warden
admitted = record idle {
  pending =
      record {
        sshd = sshd;
        grant_id = grant_id;
        user = codes "visitor";
        deadline = pos 2700;
        created = pos 1010;
      }
      ∷ [];
}

admit_runs :
    admit cfg table signer
      (pos 1010)
      (pos 1010)
      idle
      idle
      caller
      (codes "visitor")
      label
      (codes "5")
    ≡ (ok (codes "visitor"), admitted)
unfolding admit admissible parse_key_id split eq_bytes valid_grant_id valid_agent_id all_b32
    is_b32_char sshd_of is_sshd check_grant check_info admits put_pending record_admission
admit_runs = refl
