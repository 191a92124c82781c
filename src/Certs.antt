-- ===== src/Certs.antt =====
-- pkg/certs/mitm.go: how the certificate of the proxy is loaded or made. A fatal message, which ends
-- the program, is a panic here.
pub mod Reloading
use proxify.Common.{Bool, true, false, not, ◌||◌, Option, none, some, if◌then◌else◌}
use proxify.Go.Outcome.{Outcome, ok, err, panic, ◌>>=◌}
use proxify.Go.Strings.{Bytes, codes}
use proxify.Go.Disk.{Disk, read_file, write_file, file_exists}

-- The calls of crypto/x509, encoding/pem and martian's mitm, for certificates `C` and keys `K`,
-- with `filepath.Join`; `is_expired` compares with the clock.
pub record CertLib (C K : Type 0) : Type 0 where
  pub join_path : Bytes → Bytes → Bytes
  pub encode_pem : Bytes → Bytes → Outcome Bytes
  pub decode_pem : Bytes → Option Bytes
  pub raw : C → Bytes
  pub parse_certificate : Bytes → Outcome C
  pub is_expired : C → Bool
  pub marshal_key : K → Bytes
  pub parse_key : Bytes → Outcome K
  pub new_authority : Outcome (C × K)

-- A result with the variables `cert` and `pkey` after it, and the disk.
pub record Loaded (C K : Type 0) : Type 0 where
  pub result : Outcome (Unit {0})
  pub cert : Option C
  pub pkey : Option K
  pub disk : Disk

module _ {C K : Type 0} (lib : CertLib C K) where
  -- `SaveCAToFile` and `SaveKeyToFile`, for a block type and its bytes.
  unfoldable pub save_to_file : Bytes → Bytes → Bytes → Disk → Outcome (Unit {0}) × Disk
  save_to_file kind content filename d = elim (lib.encode_pem kind content) [
    | panic ↦ (panic, d)
    | err e ↦ (err e, d)
    | ok text ↦ write_file filename text d
  ]

  -- `generateCertificate`, behind `NewAuthority`: both files are written, or the program ends.
  unfoldable pub save_pair : Bytes → Bytes → C → K → Disk → Loaded C K
  save_pair cert_file key_file c k d =
      let (saved, d₁) = save_to_file (codes "CERTIFICATE") (lib.raw c) cert_file d in
      let (saved', d₂) = save_to_file (codes "RSA PRIVATE KEY") (lib.marshal_key k) key_file d₁ in
      elim saved [
        | panic ↦ record { result = panic; cert = some c; pkey = some k; disk = d₁ }
        | err e ↦ record { result = panic; cert = some c; pkey = some k; disk = d₁ }
        | ok done ↦ elim saved' [
          | panic ↦ record { result = panic; cert = some c; pkey = some k; disk = d₂ }
          | err e ↦ record { result = panic; cert = some c; pkey = some k; disk = d₂ }
          | ok done' ↦ record { result = ok tt; cert = some c; pkey = some k; disk = d₂ }
        ]
      ]

  unfoldable pub generate_certificate : Bytes → Bytes → Disk → Loaded C K
  generate_certificate cert_file key_file d = elim lib.new_authority [
    | panic ↦ record { result = panic; cert = none; pkey = none; disk = d }
    | err e ↦ record { result = panic; cert = none; pkey = none; disk = d }
    | ok pair ↦ save_pair cert_file key_file pair.0 pair.1 d
  ]

  -- `readPemFromDisk`
  unfoldable pub read_pem_from_disk : Bytes → Disk → Outcome Bytes
  read_pem_from_disk filename d = read_file filename d >>= λ bin. elim (lib.decode_pem bin) [
    | none ↦ err (codes "failed to decode pem block got nil")
    | some block ↦ ok block
  ]

  -- `readCertNKeyFromDisk`: a parse that fails leaves nil in its variable.
  unfoldable pub read_key : Bytes → C → Option K → Disk → Loaded C K
  read_key key_file c old d = elim (read_pem_from_disk key_file d) [
    | panic ↦ record { result = panic; cert = some c; pkey = old; disk = d }
    | err e ↦ record { result = err e; cert = some c; pkey = old; disk = d }
    | ok block ↦ elim (lib.parse_key block) [
      | panic ↦ record { result = panic; cert = some c; pkey = old; disk = d }
      | err e ↦ record { result = err e; cert = some c; pkey = none; disk = d }
      | ok k ↦ record { result = ok tt; cert = some c; pkey = some k; disk = d }
    ]
  ]

  unfoldable pub read_cert_n_key_from_disk : Bytes → Bytes → Option C → Option K → Disk → Loaded C K
  unfolding read_key
  read_cert_n_key_from_disk cert_file key_file old_cert old_key d =
      elim (read_pem_from_disk cert_file d) [
        | panic ↦ record { result = panic; cert = old_cert; pkey = old_key; disk = d }
        | err e ↦ record { result = err e; cert = old_cert; pkey = old_key; disk = d }
        | ok block ↦ elim (lib.parse_certificate block) [
          | panic ↦ record { result = panic; cert = old_cert; pkey = old_key; disk = d }
          | err e ↦ record { result = err e; cert = none; pkey = old_key; disk = d }
          | ok c ↦
              if lib.is_expired c
              then record {
                result = err (codes "expired certificate found");
                cert = some c;
                pkey = old_key;
                disk = d;
              }
              else read_key key_file c old_key d
        ]
      ]

  abbrev pub cert_path : Bytes → Bytes
  cert_path dir = lib.join_path dir (codes "cacert.pem")

  abbrev pub key_path : Bytes → Bytes
  key_path dir = lib.join_path dir (codes "cakey.pem")

  -- `LoadCerts`, at the start of the program, when both variables are nil. A certificate and a key
  -- that were read without an error are not nil, so the last test of the source does not fail.
  unfoldable pub load_certs : Bytes → Disk → Loaded C K
  load_certs dir d =
      if not (file_exists (cert_path dir) d) || not (file_exists (key_path dir) d)
      then generate_certificate (cert_path dir) (key_path dir) d
      else let loaded = read_cert_n_key_from_disk (cert_path dir) (key_path dir) none none d in
        elim loaded.result [
          | ok done ↦ loaded
          | panic ↦ loaded
          | err e ↦ record loaded {
            result = err (
                codes
                  "malformed/expired certificate found generating new ones\nNote: Certificates must be reinstalled");
          }
        ]
