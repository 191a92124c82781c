-- ===== src/Tests/Certifying.antt =====
-- Tests of pkg/certs, with texts for certificates and keys.
use proxify.Common.{◌≡◌, ◌≢◌, refl, false, some, ◌++◌, inl}
use proxify.Go.Outcome.{ok}
use proxify.Go.Strings.{Bytes, codes}
use proxify.Go.Maps.{lookup}
use proxify.Go.Disk.{file_exists}
use proxify.Certs.{CertLib, load_certs, cert_path, key_path}
use proxify.Certs.Reloading.{IsFaithful, load_certs-reloads}
use proxify.Tests.Fixtures.{empty_disk}

abbrev pub cert_lib : CertLib Bytes Bytes
cert_lib = record {
  join_path = λ dir name. dir ++ name;
  encode_pem = λ kind s. ok s;
  decode_pem = λ s. some s;
  raw = λ c. c;
  parse_certificate = λ s. ok s;
  is_expired = λ c. false;
  marshal_key = λ k. k;
  parse_key = λ s. ok s;
  new_authority = ok (codes "c", codes "k");
}

cert_lib-IsFaithful : IsFaithful cert_lib (codes "c") (codes "k") (codes "c") (codes "k")
cert_lib-IsFaithful = record {
  made = refl;
  cert_encoded = refl;
  key_encoded = refl;
  cert_decoded = refl;
  key_decoded = refl;
  cert_parsed = refl;
  key_parsed = refl;
  fresh = refl;
}

key_path-ne-cert_path : key_path cert_lib (codes "d/") ≢ cert_path cert_lib (codes "d/")
unfolding codes
key_path-ne-cert_path = cc

load_certs-reloads_example :
    ((load_certs cert_lib (codes "d/") empty_disk).result ≡ ok tt)
    × (load_certs cert_lib (codes "d/") (load_certs cert_lib (codes "d/") empty_disk).disk
        ≡ load_certs cert_lib (codes "d/") empty_disk)
    × ((load_certs cert_lib (codes "d/") empty_disk).cert ≡ some (codes "c"))
    × ((load_certs cert_lib (codes "d/") empty_disk).pkey ≡ some (codes "k"))
unfolding file_exists lookup
load_certs-reloads_example =
    load_certs-reloads cert_lib (codes "c") (codes "k") (codes "c") (codes "k") (codes "d/")
      empty_disk key_path-ne-cert_path cert_lib-IsFaithful (inl refl) (refl, refl) (refl, refl)
