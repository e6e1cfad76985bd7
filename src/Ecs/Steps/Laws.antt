-- ===== src/Ecs/Steps/Laws.antt =====
-- What Status answers for a request id that Create or Update made.
use formae_plugin_aws.Prelude.{◌≡◌, ◌⊎◌, Option, some}
use formae_plugin_aws.Go.{Outcome, panicked, succeed}
use formae_plugin_aws.Sdk.{success, ProgressResult, StatusRequest}
use formae_plugin_aws.Ecs.Names.{Composite, Names}
use formae_plugin_aws.Ecs.Timeout.{Service}
use formae_plugin_aws.Ecs.PhaseA.Laws.{Told, Settles, Sound}
use formae_plugin_aws.Ecs.PhaseB.Answers.{Settles as SettlesLater, Sound as SoundLater}
use formae_plugin_aws.Ecs.Reading.{service_read}

module _ {ℓ} {W : Type ℓ} (s : Service W) (request : StatusRequest) (composite : Composite)
    (names : Names) (w : W) where
  -- A panic, or a result: of the first phase, or, after a success of Cloud Control and in the world
  -- that it leaves, of the second.
  abbrev pub Answers : Outcome (Option ProgressResult) × W → Type ℓ
  Answers (o, w') =
      (o ≡ panicked)
      ⊎ ((pr : ProgressResult) × ((o ≡ succeed (some pr))
            × (Settles s composite.op request composite.unix_start (service_read s)
                  composite.ccapi_token w (pr, w')
                ⊎ ((v : W) × ((cc : ProgressResult) × (Told s composite.op request
                          composite.unix_start (service_read s) composite.ccapi_token w (some cc) v
                        × ((cc.operation_status ≡ success)
                            × SettlesLater s request composite.op composite.unix_start names.cluster
                                names.service v (pr, w'))))))))
