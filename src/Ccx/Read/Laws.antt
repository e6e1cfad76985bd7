-- ===== src/Ccx/Read/Laws.antt =====
-- What a read returns, and what a read after a success adds to a result.
use formae_plugin_aws.Prelude.{◌≡◌, Option, arith}
use formae_plugin_aws.Text.{Text}
use formae_plugin_aws.Go.{GoError}
use formae_plugin_aws.Sdk.{ReadResult, ProgressResult}
use formae_plugin_aws.Json.{Json}
use formae_plugin_aws.Ccx.Read.{take_properties}

-- The read changes nothing of the result but its properties.
pub take_properties_same :
    (pr : ProgressResult) (res : Option ReadResult) (err : Option GoError)
    → let pr' = take_properties pr res err in
      (pr'.operation ≡ pr.operation)
      × (pr'.operation_status ≡ pr.operation_status)
      × (pr'.request_id ≡ pr.request_id)
      × (pr'.native_id ≡ pr.native_id)
      × (pr'.error_code ≡ pr.error_code)
unfolding take_properties
take_properties_same pr res err = ground arith
