-- ===== src/Acm/Client.antt =====
-- pkg/cfres/certificatemanager/acmclient.go, and the data of the ACM SDK that certificate.go touches.
-- An enumeration of the SDK is a string type there, and a text here.
use formae_plugin_aws.Prelude.Int.{ℤ}
use formae_plugin_aws.Prelude.{Bool, Option, List, Io}
use formae_plugin_aws.Text.{Text}
use formae_plugin_aws.Go.{Outcome, NoOutput}
use formae_plugin_aws.Json.{Codec}

pub record Tag : Type 0 where
  pub key : Option Text
  pub value : Option Text

-- The domain validation options are domain names with their validation domains.
pub record RequestInput : Type 0 where
  pub domain_name : Text
  pub subject_alternative_names : List Text
  pub validation_method : Text
  pub key_algorithm : Text
  pub certificate_authority_arn : Option Text
  pub domain_validation_options : List (Text × Text)
  pub tags : List Tag

-- acmtypes.ResourceRecord
pub record ResourceRecord : Type 0 where
  pub record_type : Text
  pub name : Option Text
  pub value : Option Text

-- acmtypes.DomainValidation
pub record DomainValidation : Type 0 where
  pub validation_method : Text
  pub resource_record : Option ResourceRecord

-- acmtypes.CertificateDetail; of its options, the transparency logging preference.
pub record CertificateDetail : Type 0 where
  pub domain_name : Option Text
  pub subject_alternative_names : List Text
  pub key_algorithm : Text
  pub domain_validation_options : List DomainValidation
  pub transparency_preference : Option Text

pub record CertificatesInput : Type 0 where
  pub key_types : List Text
  pub max_items : Option ℤ
  pub next_token : Option Text

-- The ARNs of the summaries, and the next token.
pub record CertificatesOutput : Type 0 where
  pub arns : List (Option Text)
  pub next_token : Option Text

-- ACMClientInterface; an output that no caller looks at is left out.
pub record AcmClient {ℓ} (W : Type ℓ) : Type ℓ where
  -- the ARN of the output
  pub request_certificate : RequestInput → Io W (Outcome (Option Text))
  -- the certificate of the output
  pub describe_certificate : Text → Io W (Outcome (Option CertificateDetail))
  pub delete_certificate : Text → Io W (Outcome NoOutput)
  pub add_tags : Text → List Tag → Io W (Outcome NoOutput)
  pub remove_tags : Text → List Tag → Io W (Outcome NoOutput)
  pub list_tags : Text → Io W (Outcome (List Tag))
  pub list_certificates : CertificatesInput → Io W (Outcome CertificatesOutput)
  -- the transparency logging preference of a certificate
  pub update_options : Text → Text → Io W (Outcome NoOutput)

-- The struct Certificate, with encoding/json and, for the poll, the race of a timer and the end of
-- the context, whose answer is whether the context ended. Durations and counts are integers.
pub record Certificate {ℓ} (W : Type ℓ) : Type ℓ where
  pub acm_client : Io W (Outcome (AcmClient W))
  pub codec : Codec
  pub poll_interval : ℤ
  pub poll_attempts : ℤ
  pub wait : ℤ → Io W Bool
