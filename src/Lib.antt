-- ===== src/Lib.antt =====
-- grantd lends a shell account on one host to one visitor, once, for a while. The owner of the host
-- makes a grant: a row in a local database with a secret, which travels in the fragment of a URL. A
-- visitor sends a redemption request over a coordination service that nobody trusts. The signer, the
-- one process with keys, checks the request, consumes the grant in one transaction and answers with
-- an SSH certificate that ends when the grant does.
--
-- The parts, and the files that model them:
--   Std         encoding/binary, unicode/utf8, encoding/base32, encoding/base64 and strings, as far
--               as the code uses them, with their round trips.
--   Canonical   go/internal/canonical/canonical.go: `encode` is Encode, the four kinds of field are
--               S, U, B and Bl. Canonical.Format states the byte format on its own, Canonical.Decode
--               reads it.
--   Protocol    go/internal/protocol. Ids is ids.go, Secrets its secret and capability URL, Validate
--               and Dns are validate.go, Messages is messages.go (a method `Canonical` of a message is
--               `canonical_` and the message), SshKey is sshkey.go, Errors is errors.go, Envelopes
--               is envelopes.go, Json the codecs of both, Frames is frames.go.
--   SshCert     go/internal/sshcert/sshcert.go: the serial, the certificate, its issue.
--   Store       go/signer/store/store.go. Tables is the schema, a table a list of rows; Host, Grants,
--               Nonces, Claim and Certificates have a function for each method of `Store`, named as
--               the method is. SingleUse is about histories of them.
--   Signer      Redeem is go/signer/redeem.go, Grants is go/signer/signer.go and the line of a public
--               key of go/internal/idkey/idkey.go. Lifetime and Api are the handlers and the routes of
--               go/signer/api/http.go.
--   Warden      go/warden: KeyId is keyid.go; State has the types of warden.go and proc.go, with the maps
--               of grants and of pending admissions as lists of entries. Admission is Admit, Attach
--               is Attach, cut where it gives up the lock, Closing is the loop that ends grants (Run
--               and what it calls), Reconcile the restart, Units the names of slices and scopes,
--               Source the answers of the signer (signer.go), AdmitServer the requests of the sshd
--               hooks (admitserver.go). Life has those calls as the steps of
--               one state machine.
--   Daemon      go/daemon: Client is signerclient/client.go; of rendezvous/rendezvous.go Session is
--               register and session, Retry is Run, Rendezvous what comes in on the connection and the
--               redemptions in flight, Publishing what goes out about new grants.
--   Agent       go/agent: CapabilityUrl and Redemption are identity.go and client.go, Verify is
--               verify.go, what a visitor checks of the host's record and of the answer.
--   Crypto, Ssh what the code takes from crypto/sha256, crypto/hmac, crypto/ed25519 and
--               golang.org/x/crypto/ssh, as records of functions, with the laws that a theorem relies
--               on. Toy has a concrete one of each.
--
-- How they interact: Signer.Redeem runs the checks of Protocol on a request, then the nonce table and
-- the claim of Store, which is given the check of the proof as a function of the secret, then SshCert,
-- and records the certificate in Store. A function that reads or writes the database takes it and
-- returns the next one beside its result, on the error paths too. `Io` says of each SQL statement
-- whether the database fails it, so that every error path is a case of the model and every theorem
-- holds whatever fails. SQLite's BEGIN IMMEDIATE makes a claim one step, so an interleaving of callers
-- is a list of calls. The warden serializes its state by a lock, so each stretch of a call under the
-- lock is a step, and Life.Reach is the states after any sequence of such steps. Of the grants that are
-- not open only the one goroutine of Run writes, so that a pass of terminate is one step too. A round of
-- Run, as Closing.run_round has it, is of a warden that no other call runs on meanwhile, though the
-- source gives up the lock between its parts and for each call of the signer; in Life its parts are
-- steps of their own, between which other calls come. CreateGrant of the signer counts the grants and
-- inserts the new one without a lock, so it is given the state that it reads and the state that it
-- writes to.
--
-- Numbers: an int64 is an integer of two constructors, its arithmetic `add64`, `sub64` and `neg64`
-- wrap to 64 bits, and `IsInt64` is its range. A uint64 is a natural number. Lengths are natural
-- numbers, written modulo 2^32 where the source writes a uint32. Loops are structural recursion; the
-- one loop that the data does not bound, the draw of a nonzero serial, runs over the finite list of
-- draws that the random source gave, and its end is a result of its own. The loop of the daemon's Run
-- runs over a finite list of rounds, and the end of the list is the result that it goes on; the draws
-- of rand.Int63n are a function with the documented bound.
--
-- Not modelled: JSON texts, HTTP and websockets as such (go/signer/api, go/daemon), the parsing of a URL
-- by net/url, which is a parameter, files, flags and wiring (go/cmd, and the files of keys in
-- go/agent/identity.go), the schema's migrations, the reads of /proc and cgroupfs, the calls of systemd
-- and the encoding of the state file (go/warden), logging, and the texts of errors. Left out of Attach is
-- that its pointer to a grant may be to one that was forgotten and made anew under the same id while it
-- had no lock: the source refuses then, for the old one is closed, where the model finds the new one.
pub mod Agent
pub mod Base
pub mod Canonical
pub mod Crypto
pub mod Daemon
pub mod Protocol
pub mod Signer
pub mod Ssh
pub mod SshCert
pub mod Std
pub mod Store
pub mod Toy
pub mod Warden
