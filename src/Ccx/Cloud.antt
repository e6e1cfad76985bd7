-- ===== src/Ccx/Cloud.antt =====
-- What pkg/ccx/client.go uses and does not implement: the Cloud Control API, encoding/json, the clock,
-- and the two regular expressions, by their tests.
use formae_plugin_aws.Prelude.Int.{ℤ}
use formae_plugin_aws.Prelude.{Bool, Option, List, Io}
use formae_plugin_aws.Text.{Text}
use formae_plugin_aws.Go.{Outcome}
use formae_plugin_aws.Sdk.{ProgressEvent}
use formae_plugin_aws.Json.{Codec}
use formae_plugin_aws.Ccx.Retry.{Clock}

-- GetResourceOutput: the type name, and the properties of the description.
pub record Description : Type 0 where
  pub type_name : Option Text
  pub properties : Option Text

-- An entry of ListResourcesOutput.
pub record Listed : Type 0 where
  pub identifier : Option Text
  pub properties : Option Text

pub record ListInput : Type 0 where
  pub type_name : Option Text
  pub max_results : Option ℤ
  pub next_token : Option Text
  pub resource_model : Option Text

pub record ListOutput : Type 0 where
  pub descriptions : List Listed
  pub next_token : Option Text

-- The type name comes first, then the identifier, then what is sent.
pub record Cloud {ℓ} (W : Type ℓ) : Type ℓ where
  pub codec : Codec
  pub clock : Clock W
  pub matches_consistency : Text → Bool
  pub matches_target_group : Text → Bool
  pub create_resource : Text → Text → Io W (Outcome ProgressEvent)
  pub update_resource : Text → Text → Option Text → Io W (Outcome ProgressEvent)
  pub delete_resource : Text → Text → Io W (Outcome ProgressEvent)
  pub get_resource : Text → Text → Io W (Outcome Description)
  pub request_status : Text → Io W (Outcome ProgressEvent)
  pub list_resources : ListInput → Io W (Outcome ListOutput)
