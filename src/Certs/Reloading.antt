-- ===== src/Certs/Reloading.antt =====
-- A certificate that pkg/certs/mitm.go has made is loaded at the next start.
use proxify.Common.{◌≡◌, ◌≢◌, refl, ◌∙◌, ◌⊎◌, true, false, none, some, arith}
use proxify.Go.Outcome.{ok}
use proxify.Go.Strings.{Bytes, codes}
use proxify.Go.Strings.Equality.{str_eq_refl, str_eq_of_ne}
use proxify.Go.Maps.{lookup, insert, lookup-insert}
use proxify.Go.Disk.{Disk, read_file, write_file, file_exists}
use proxify.Certs.{
  CertLib, save_to_file, save_pair, generate_certificate, read_pem_from_disk,
  read_cert_n_key_from_disk, cert_path, key_path, load_certs, read_key,
}

module _ {C K : Type 0} (lib : CertLib C K) (c : C) (k : K) (cert_text key_text : Bytes) where
  -- What the libraries do with a fresh pair: its blocks are encoded, decoded and parsed back.
  pub record IsFaithful : Type 0 where
    pub made : lib.new_authority ≡ ok (c, k)
    pub cert_encoded : lib.encode_pem (codes "CERTIFICATE") (lib.raw c) ≡ ok cert_text
    pub key_encoded : lib.encode_pem (codes "RSA PRIVATE KEY") (lib.marshal_key k) ≡ ok key_text
    pub cert_decoded : lib.decode_pem cert_text ≡ some (lib.raw c)
    pub key_decoded : lib.decode_pem key_text ≡ some (lib.marshal_key k)
    pub cert_parsed : lib.parse_certificate (lib.raw c) ≡ ok c
    pub key_parsed : lib.parse_key (lib.marshal_key k) ≡ ok k
    pub fresh : lib.is_expired c ≡ false

  abbrev pub IsWritable : Bytes → Disk → Type 0
  IsWritable path d = (d.refuses path ≡ none) × (d.breaks path ≡ none)

  -- The disk with both files.
  abbrev pub with_pair : Bytes → Disk → Disk
  with_pair dir d = record d {
    files = insert (key_path lib dir) key_text (insert (cert_path lib dir) cert_text d.files);
  }

  generate_certificate-eq :
      (dir : Bytes) (d : Disk)
      → IsFaithful
      → IsWritable (cert_path lib dir) d
      → IsWritable (key_path lib dir) d
      → generate_certificate lib (cert_path lib dir) (key_path lib dir) d
        ≡ record { result = ok tt; cert = some c; pkey = some k; disk = with_pair dir d }
  unfolding generate_certificate save_pair save_to_file write_file
  generate_certificate-eq dir d f (o, b) (o', b') = rw (f.made, generate_certificate) (ground arith)

  file_exists-stored :
      (path s : Bytes) (d : Disk) → lookup path d.files ≡ some s → file_exists path d ≡ true
  unfolding file_exists
  file_exists-stored path s d h = rw (h, file_exists) refl

  read_pem-stored :
      (path s block : Bytes) (d : Disk)
      → lookup path d.files ≡ some s
      → d.refuses path ≡ none
      → lib.decode_pem s ≡ some block
      → read_pem_from_disk lib path d ≡ ok block
  unfolding read_pem_from_disk read_file
  read_pem-stored path s block d h o e = rw (o, read_pem_from_disk, read_file) (rw h (rw e refl))

  read_pair :
      IsFaithful
      → (dir : Bytes) (d : Disk) → read_pem_from_disk lib (cert_path lib dir) d ≡ ok (lib.raw c)
      → read_pem_from_disk lib (key_path lib dir) d ≡ ok (lib.marshal_key k)
      → read_cert_n_key_from_disk lib (cert_path lib dir) (key_path lib dir) none none d
        ≡ record { result = ok tt; cert = some c; pkey = some k; disk = d }
  unfolding read_cert_n_key_from_disk read_key
  read_pair f dir d h h' =
      rw (h, read_cert_n_key_from_disk)
        (rw f.cert_parsed (rw f.fresh (rw (h', read_key) (rw f.key_parsed refl))))

  load_certs-existing :
      (dir : Bytes) (d : Disk)
      → file_exists (cert_path lib dir) d ≡ true
      → file_exists (key_path lib dir) d ≡ true
      → read_cert_n_key_from_disk lib (cert_path lib dir) (key_path lib dir) none none d
        ≡ record { result = ok tt; cert = some c; pkey = some k; disk = d }
      → load_certs lib dir d ≡ record { result = ok tt; cert = some c; pkey = some k; disk = d }
  unfolding load_certs
  load_certs-existing dir d h h' e = rw (h, load_certs) (rw h' (rw e e))

  load_certs-missing :
      (dir : Bytes) (d : Disk)
      → file_exists (cert_path lib dir) d ≡ false ⊎ file_exists (key_path lib dir) d ≡ false
      → load_certs lib dir d ≡ generate_certificate lib (cert_path lib dir) (key_path lib dir) d
  unfolding load_certs
  load_certs-missing dir d missing = ground arith

  module _ (dir : Bytes) (d : Disk) (apart : key_path lib dir ≢ cert_path lib dir) where
    cert_stored : lookup (cert_path lib dir) (with_pair dir d).files ≡ some cert_text
    cert_stored = rw (lookup-insert, str_eq_of_ne _ _ apart, lookup-insert, str_eq_refl) refl

    key_stored : lookup (key_path lib dir) (with_pair dir d).files ≡ some key_text
    key_stored = rw (lookup-insert, str_eq_refl) refl

    load_certs-with_pair :
        IsFaithful
        → d.refuses (cert_path lib dir) ≡ none
        → d.refuses (key_path lib dir) ≡ none
        → load_certs lib dir (with_pair dir d)
          ≡ record { result = ok tt; cert = some c; pkey = some k; disk = with_pair dir d }
    load_certs-with_pair f o o' =
        load_certs-existing dir (with_pair dir d)
          (file_exists-stored (cert_path lib dir) cert_text (with_pair dir d) cert_stored)
          (file_exists-stored (key_path lib dir) key_text (with_pair dir d) key_stored)
          (read_pair f dir (with_pair dir d)
            (read_pem-stored (cert_path lib dir) cert_text (lib.raw c) (with_pair dir d) cert_stored
              o f.cert_decoded)
            (read_pem-stored (key_path lib dir) key_text (lib.marshal_key k) (with_pair dir d)
              key_stored o' f.key_decoded))

    -- When the libraries make a certificate and a key that can be encoded, decoded and parsed
    -- back, and that is not expired, when one of the two files is missing, their paths differ,
    -- and both can be read and written: `load_certs` succeeds with the new pair, and when it
    -- runs again on the disk that is left, it gives the same pair from the files and changes
    -- nothing.
    pub load_certs-reloads :
        IsFaithful
        → file_exists (cert_path lib dir) d ≡ false ⊎ file_exists (key_path lib dir) d ≡ false
        → IsWritable (cert_path lib dir) d
        → IsWritable (key_path lib dir) d
        → ((load_certs lib dir d).result ≡ ok tt)
          × (load_certs lib dir (load_certs lib dir d).disk ≡ load_certs lib dir d)
          × ((load_certs lib dir d).cert ≡ some c)
          × ((load_certs lib dir d).pkey ≡ some k)
    load_certs-reloads f missing w w' =
        let made : load_certs lib dir d
            ≡ record { result = ok tt; cert = some c; pkey = some k; disk = with_pair dir d } =
          load_certs-missing dir d missing ∙ generate_certificate-eq dir d f w w' in
        rw made (refl, load_certs-with_pair f w.0 w'.0, refl, refl)
