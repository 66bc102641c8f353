-- ===== src/Warden/Tests/Admit.antt =====
-- The socket of the sshd hooks at one certificate.
use grantd.Base.{
  ℕ, ◌≡◌, refl, Option, none, some, [], ◌∷◌, Bytes, pos, codes, ◌==◌, if◌then◌else◌, eq_bytes,
}
use grantd.Warden.KeyId.{parse_key_id}
use grantd.Std.Strings.{split}
use grantd.Protocol.Ids.{valid_grant_id, valid_agent_id}
use grantd.Std.Base32.{all_b32, is_b32_char}
use grantd.Warden.State.{is_sshd}
use grantd.Ssh.{AuthorizedKey, signed}
use grantd.Warden.State.{Proc, Warden}
use grantd.Warden.Tests.Life.{machine, root_helper}
use grantd.Warden.Attach.{World}
use grantd.Warden.AdmitServer.{
  PeerCred, PrincipalsRequest, answered, principals, attach_request, cert_key_id_serial,
}
use grantd.Warden.AdmitServer.Laws.{Calls, Authorizes, principals_sound}
use grantd.Warden.Admission.{admits, put_pending, admit}
use grantd.Warden.Tests.{cfg, signer, idle, admitted, label, sshd, caller as helper}

-- The process table: the helper below its sshd.
abbrev table : ℕ → Option Proc
table pid = if pid == 401 then some helper else some sshd

abbrev parse : Bytes → Option AuthorizedKey
parse line = some (
    signed (record {
      certificate = record {
        key = record { key_type = []; wire = [] };
        serial = 5;
        cert_type = 1;
        key_id = label;
        valid_principals = codes "visitor" ∷ [];
        valid_after = 970;
        valid_before = 2700;
        extensions = [];
      };
      signature_key = none;
    }))

abbrev decimal : ℕ → Bytes
decimal n = codes "5"

abbrev peer : Option PeerCred
peer = some (record { pid = 401; uid = 990 })

abbrev presented : PrincipalsRequest
presented = record {
  user = codes "visitor";
  cert_type = codes "ssh-ed25519-cert-v01@openssh.com";
  cert_b64 = codes "AAAA";
}

principals_run :
    principals cfg table parse decimal signer (pos 1010) (pos 1010) idle idle peer (some presented)
    ≡ (answered (codes "visitor" ∷ []), admitted)
unfolding principals cert_key_id_serial eq_bytes admit parse_key_id split valid_grant_id all_b32
    is_b32_char valid_agent_id is_sshd admits put_pending
principals_run = refl

principals_sound_example :
    (req : PrincipalsRequest) × (p : Proc) × (some presented ≡ some req)
    × Calls table peer p
    × Authorizes cfg table parse decimal signer
        (pos 1010)
        (pos 1010)
        idle
        idle
        admitted
        req
        p
        (codes "visitor" ∷ [])
principals_sound_example =
    principals_sound cfg table parse decimal signer (pos 1010) (pos 1010) idle idle admitted peer
      (some presented) (codes "visitor" ∷ []) principals_run

-- The session hook runs as root.
abbrev hook : World
hook = record machine { read_proc = λ pid. if pid == 402 then some root_helper else some sshd }

abbrev root_peer : Option PeerCred
root_peer = some (record { pid = 402; uid = 0 })

abbrev attached : Warden
attached = (attach_request cfg hook root_peer (some (codes "visitor")) admitted).1
